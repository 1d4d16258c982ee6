-- ===== src/Rbac.antt =====
-- services/tenant_rbac_admin.py, tenant_rbac_gate.py and privileged_access.py: the groups, roles and
-- assignments of a tenant, and the requests for privileged roles. The calls that only list rows are
-- left out.
pub mod Rows
pub mod Kept
pub mod Rules
pub mod Groups
pub mod Roles
pub mod Gate
pub mod Privileged
