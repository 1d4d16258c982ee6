-- ===== src/Access.antt =====
-- services/access_service.py, session_refresh_service.py, session_lifecycle.py and
-- device_lifecycle.py: the access decisions and the sessions that they open, extend and end.
pub mod Checks
pub mod Evidence
pub mod User
pub mod Machine
pub mod Devices
pub mod Revoke
pub mod Refresh
