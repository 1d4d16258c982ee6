-- ===== src/Catalog.antt =====
-- services/module_catalog.py: what a catalog of a module must be before it is stored. `stored` is the
-- permissions table, and `lower` is `str.lower`. The writes of `put_catalog` are left out.
pub mod Accepted
use verigence_security.Common.{
  ℕ, Bool, true, false, ◌&&◌, ◌||◌, not, List, [], ◌∷◌, ◌++◌, map, Option, none, some, Text, codes,
  text_eq, is_empty, find_first, option_or,
}
use verigence_security.Core.Result.{Result, ok, err, ◌>>=◌, ◌>>◌}
use verigence_security.Permissions.Canonical.{is_canonical_permission}
use verigence_security.Permissions.Ordered.{has}
use verigence_security.Access.Machine.Credential.{strip}
use verigence_security.Rbac.Roles.{starts_with}
use verigence_security.Config.{is_blank, refuse_if}

pub record PermissionInput : Type 0 where
  pub key : Text
  pub name : Text
  pub description : Option Text
  pub status : Text

pub record RoleTemplateInput : Type 0 where
  pub key : Text
  pub name : Text
  pub permissions : List Text
  pub description : Option Text
  pub status : Text

pub record CatalogInput : Type 0 where
  pub module_key : Text
  pub module_name : Text
  pub catalog_version : Text
  pub permissions : List PermissionInput
  pub role_templates : List RoleTemplateInput

-- The columns of a row of `permissions` that the checks read.
pub record StoredPermission : Type 0 where
  pub permission_key : Text
  pub module_key : Text
  pub status : Text

-- ModuleCatalogRepository.permission
unfoldable pub permission : Text → List StoredPermission → Option StoredPermission
permission key stored = find_first (λ r. text_eq r.permission_key key) stored

abbrev pub allowed_lifecycle : List Text
allowed_lifecycle = codes "ACTIVE" ∷ codes "DEPRECATED" ∷ codes "RETIRED" ∷ []

abbrev pub is_active : Text → Bool
is_active status = text_eq status (codes "ACTIVE")

-- `len(keys) != len(set(keys))`
abbrev pub has_duplicates : List Text → Bool
has_duplicates [] = false
has_duplicates (k ∷ ks) = has k ks || has_duplicates ks

-- A check of each element, which ends at the first that raises.
abbrev pub each : {A : Type 0} → (A → Result (Unit {0})) → List A → Result (Unit {0})
each f [] = ok tt
each f (x ∷ xs) = f x >> each f xs

abbrev pub in_namespace : Text → Text → Bool
in_namespace module_key key = starts_with (module_key ++ codes ".") key

unfoldable pub validate_permission : Text → PermissionInput → Result (Unit {0})
validate_permission module_key p = do
  refuse_if (not (is_canonical_permission p.key))
  refuse_if (not (in_namespace module_key p.key))
  refuse_if (is_blank p.name)
  refuse_if (not (has p.status allowed_lifecycle))

module _ (stored : List StoredPermission) (module_key : Text) (catalog : CatalogInput) where
  abbrev pub submitted : Text → Option PermissionInput
  submitted key = find_first (λ p. text_eq p.key key) catalog.permissions

  -- A permission that is not submitted must be stored for the module, and ACTIVE.
  abbrev pub stored_reference : Option StoredPermission → Result (Unit {0})
  stored_reference existing = do
    refuse_if (not (option_or false (λ r. text_eq r.module_key module_key) existing))
    refuse_if (not (option_or false (λ r. is_active r.status) existing))

  abbrev pub reference : Text → Option PermissionInput → Result (Unit {0})
  reference key none = stored_reference (permission key stored)
  reference key (some p) = refuse_if (not (is_active p.status))

  unfoldable pub validate_reference : Text → Result (Unit {0})
  validate_reference key = do
    refuse_if (not (in_namespace module_key key))
    reference key (submitted key)

  unfoldable pub validate_template : RoleTemplateInput → Result (Unit {0})
  unfolding validate_reference
  validate_template t = do
    refuse_if (not (in_namespace module_key t.key))
    refuse_if (not (has t.status allowed_lifecycle))
    refuse_if (has_duplicates t.permissions)
    each validate_reference t.permissions

-- `_validate_catalog`
unfoldable pub validate_catalog :
    (Text → Text) → List StoredPermission → Text → CatalogInput → Result (Unit {0})
unfolding validate_permission validate_template
validate_catalog lower stored module_key catalog = do
  refuse_if (is_empty module_key || not (text_eq (lower (strip catalog.module_key)) module_key))
  refuse_if (is_blank catalog.module_name)
  refuse_if (is_blank catalog.catalog_version)
  refuse_if (has_duplicates (map (λ p. p.key) catalog.permissions))
  each (validate_permission module_key) catalog.permissions
  refuse_if (has_duplicates (map (λ t. t.key) catalog.role_templates))
  each (validate_template stored module_key catalog) catalog.role_templates

-- The check that `put_catalog` begins with.
unfoldable pub check_catalog :
    (Text → Text) → List StoredPermission → Text → CatalogInput → Result (Unit {0})
check_catalog lower stored path_module_key catalog =
    validate_catalog lower stored (lower (strip path_module_key)) catalog
