-- ===== src/Permissions.antt =====
-- services/permissions.py: the canonical form of a permission key, and the validation of lists of
-- keys. The effective permissions of a user, a query over the role tables, are in
-- Repository/Roles.
pub mod Canonical
pub mod Ordered
pub mod Validate
