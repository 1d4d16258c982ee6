-- ===== src/Lib.antt =====
-- Verification library of the Verigence Security Service.
--
-- The service decides who may use the other services of the platform, from where and for how long.
-- A request meets one of the services of src/verigence_security/services, which read and write the
-- tables of the schema `security` through a repository of src/verigence_security/repositories and
-- sign tokens. The library models the access runtime and the administration of a tenant's roles:
--
-- - Core: core/errors.py (Core.Errors) and core/types.py (Core.Types). Core.Result holds what a call
--   returns or raises, and what a chain of calls does.
-- - Db: the tables of migrations/0001 as lists of rows (Db.Schema), and an SQLAlchemy session as the
--   tables as committed and as its transaction sees them (Db.Transaction). A call is a function of the
--   session; `or_rollback` is the handler that rolls back and raises again. Db.Steps takes runs apart,
--   Db.Settled is about calls that commit only when they answer true, Db.Atomic about those that commit
--   once, at their end, and Db.Kept about what a call keeps true of the tables.
-- - Permissions: services/permissions.py, `is_canonical_permission` (Permissions.Canonical) and
--   `validate_permissions` (Permissions.Validate). Its query `effective_user_permissions` stands in
--   Repository.Roles as `group_aware_permissions`.
-- - Geo: services/geo.py, the samples, distances and `validate_geo` (Geo.Distance) and
--   `match_location` (Geo.Matching).
-- - Schedule: services/schedule.py, `evaluate_schedule`.
-- - Repository: the statements of repositories/security_repository.py, device_session_repository.py
--   and session_refresh_repository.py, by what they are about, with the constraints that can refuse a
--   write. Runtime holds the subclass of api/routes/access.py and the interface of both classes.
-- - Tokens: services/token_service.py, `issue` and `verify`; Tokens.PlatformAdmin is
--   services/platform_admin_token.py.
-- - Network: adapters/network_risk.py.
-- - Access: services/access_service.py, `UserAccessService.create_or_reuse` (Access.User, its reads and
--   tests in Access.Checks); services/session_refresh_service.py (Access.Refresh);
--   services/session_lifecycle.py (Access.Revoke); services/device_lifecycle.py (Access.Devices).
--   Access.Machine is `MachineAccessService` of access_service.py. Access.Checks.Standing is about who
--   is an active user by either class of repository, Access.Machine.Authentic about the checks of a
--   machine's credential, and Access.Refresh.Held about the rows behind the locks of a refresh; Access.User.Granted, Access.Refresh.Stored and
--   Repository.Stored are about what is signed and stored.
-- - Rbac: services/tenant_rbac_admin.py (Rbac.Groups, Rbac.Roles), whose rules on who is active and
--   where versions stand are a record (Rbac.Rules) that tenant_rbac_gate.py overrides (Rbac.Gate), and
--   services/privileged_access.py (Rbac.Privileged). Rbac.Privileged.Ledger says what the table of the
--   requests promises, and Rbac.Privileged.History is about calls one after another.
-- - Config: config.py. Correlation: core/correlation.py. Catalog: the checks of
--   services/module_catalog.py.
-- - Tests: runs on concrete data.
--
-- Instants and wall-clock times are microseconds since year 1, UUIDs their 128 bits, texts lists of
-- code points, floats their 64 bits. What stands outside the repository is a parameter: the operations
-- of floats and `math` (Platform.Doubles), the time zone database (Platform.Zones), the library that
-- signs tokens (Platform.Jwt), `uuid4`, the network-risk adapter, and what other transactions commit
-- while a call waits for a row lock (`others`). Their documented laws are hypotheses where they are
-- needed: that floats are ordered, that a signed token decodes to its claims from the second of its
-- `iat` until it expires, and that a wall-clock time is read as the first of its instants (`fold=0`).
-- A statement fails where a constraint refuses it; in Access.Revoke the locking read, the update and the
-- commit may also fail for the database's own reasons, such as `statement_timeout`.
-- The loops run over lists, so no fuel is needed. The arithmetic of dates stays within their range,
-- as the 32-bit columns of the policy keep it.
--
-- Not modelled: the HTTP routes and the Clerk adapter, which parse requests and call others; onboarding,
-- the writes of the module catalogue, and the administration of tenants, locations, schedules and
-- platform users; the calls that only list rows; and what others commit between the statements of one
-- call of Rbac.Groups and Rbac.Roles, which take no lock.
pub mod Common
pub mod Core
pub mod Db
pub mod Permissions
pub mod Platform
pub mod Geo
pub mod Schedule
pub mod Repository
pub mod Tokens
pub mod Network
pub mod Runtime
pub mod Access
pub mod Rbac
pub mod Config
pub mod Catalog
pub mod Correlation
pub mod Tests
