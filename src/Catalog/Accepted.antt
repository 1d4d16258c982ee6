-- ===== src/Catalog/Accepted.antt =====
-- What a catalog that is accepted holds.
use mathlib.Core.Path.{◌≡◌, refl, sym}
use verigence_security.Common.{
  Bool, true, false, not, ◌||◌, List, [], ◌∷◌, map, Option, none, some, Text, text_eq, is_empty,
  All, option_or, not-true, or_false, and_true_both, ◌&&◌,
}
use verigence_security.Core.Result.{Result, ok, ok-ne-err, >>=-eq-ok}
use verigence_security.Permissions.Canonical.{is_canonical_permission}
use verigence_security.Permissions.Ordered.{has}
use verigence_security.Access.Machine.Credential.{strip}
use verigence_security.Config.{is_blank, refuse_if}
use verigence_security.Catalog.{
  PermissionInput, RoleTemplateInput, CatalogInput, StoredPermission, permission, allowed_lifecycle,
  is_active, has_duplicates, each, in_namespace, validate_permission, submitted, reference,
  validate_reference, validate_template, validate_catalog, check_catalog,
}

refused-eq-ok : (b : Bool) {u : Unit {0}} → refuse_if b ≡ ok u → b ≡ false
refused-eq-ok true h = absurd (ok-ne-err (sym h))
refused-eq-ok false h = refl

each-All :
    {A : Type 0} (f : A → Result (Unit {0})) (P : A → Type 0)
    → ((x : A) → f x ≡ ok tt → P x)
    → (xs : List A) → each f xs ≡ ok tt
    → All P xs
each-All f P k [] h = tt
each-All f P k (x ∷ xs) h =
    let (_, e, h1) = >>=-eq-ok (f x) (λ _. each f xs) h in (k x e, each-All f P k xs h1)

-- A permission of the catalog: canonical, of the module, and of a known status.
pub record IsOfModule (module_key : Text) (p : PermissionInput) : Type 0 where
  pub canonical : is_canonical_permission p.key ≡ true
  pub in_module : in_namespace module_key p.key ≡ true
  pub known_status : has p.status allowed_lifecycle ≡ true

validate_permission-IsOfModule :
    (module_key : Text) (p : PermissionInput)
    → validate_permission module_key p ≡ ok tt
    → IsOfModule module_key p
unfolding validate_permission
validate_permission-IsOfModule module_key p h =
    let (_, e1, h1) = >>=-eq-ok (refuse_if (not (is_canonical_permission p.key))) _ h in
    let (_, e2, h2) = >>=-eq-ok (refuse_if (not (in_namespace module_key p.key))) _ h1 in
    let (_, _, h3) = >>=-eq-ok (refuse_if (is_blank p.name)) _ h2 in
    record {
      canonical = not-true _ (refused-eq-ok _ e1);
      in_module = not-true _ (refused-eq-ok _ e2);
      known_status = not-true _ (refused-eq-ok _ h3);
    }

module _ (stored : List StoredPermission) (module_key : Text) (catalog : CatalogInput) where
  -- The permission is ACTIVE where it is submitted, or else where it is stored for the module.
  abbrev pub usable : Text → Option PermissionInput → Bool
  usable key none =
      option_or false (λ r. text_eq r.module_key module_key) (permission key stored)
      && option_or false (λ r. is_active r.status) (permission key stored)
  usable key (some p) = is_active p.status

  pub record IsUsable (key : Text) : Type 0 where
    pub in_module : in_namespace module_key key ≡ true
    pub active : usable key (submitted stored module_key catalog key) ≡ true

  reference-usable :
      (key : Text) (o : Option PermissionInput)
      → reference stored module_key catalog key o ≡ ok tt
      → usable key o ≡ true
  reference-usable key none h =
      let existing = permission key stored in
      let (_, e1, h1) =
        >>=-eq-ok
          (refuse_if (not (option_or false (λ r. text_eq r.module_key module_key) existing))) _ h in
      and_true_both _ _ (not-true _ (refused-eq-ok _ e1)) (not-true _ (refused-eq-ok _ h1))
  reference-usable key (some p) h = not-true _ (refused-eq-ok _ h)

  validate_reference-IsUsable :
      (key : Text) → validate_reference stored module_key catalog key ≡ ok tt → IsUsable key
  unfolding validate_reference
  validate_reference-IsUsable key h =
      let (_, e1, h1) = >>=-eq-ok (refuse_if (not (in_namespace module_key key))) _ h in
      record {
        in_module = not-true _ (refused-eq-ok _ e1);
        active = reference-usable key (submitted stored module_key catalog key) h1;
      }

  -- A template of the catalog: of the module, with permissions that can be used, none of them twice.
  pub record IsUsableTemplate (t : RoleTemplateInput) : Type 0 where
    pub in_module : in_namespace module_key t.key ≡ true
    pub distinct : has_duplicates t.permissions ≡ false
    pub all_usable : All IsUsable t.permissions

  validate_template-IsUsableTemplate :
      (t : RoleTemplateInput)
      → validate_template stored module_key catalog t ≡ ok tt
      → IsUsableTemplate t
  unfolding validate_template
  validate_template-IsUsableTemplate t h =
      let (_, e1, h1) = >>=-eq-ok (refuse_if (not (in_namespace module_key t.key))) _ h in
      let (_, _, h2) = >>=-eq-ok (refuse_if (not (has t.status allowed_lifecycle))) _ h1 in
      let (_, e3, h3) = >>=-eq-ok (refuse_if (has_duplicates t.permissions)) _ h2 in
      record {
        in_module = not-true _ (refused-eq-ok _ e1);
        distinct = refused-eq-ok _ e3;
        all_usable =
            each-All (validate_reference stored module_key catalog) IsUsable
              validate_reference-IsUsable t.permissions h3;
      }

-- What the check of a catalog promises to what stores it.
pub record IsConsistent (stored : List StoredPermission) (module_key : Text)
    (catalog : CatalogInput) : Type 0 where
  pub named : is_empty module_key ≡ false
  pub distinct_permissions : has_duplicates (map (λ p. p.key) catalog.permissions) ≡ false
  pub distinct_templates : has_duplicates (map (λ t. t.key) catalog.role_templates) ≡ false
  pub permissions : All (IsOfModule module_key) catalog.permissions
  pub templates : All (IsUsableTemplate stored module_key catalog) catalog.role_templates

-- A catalog that is accepted names its module and holds no key twice; its permissions are canonical, of
-- the module and of a known status; and its role templates are of the module and hold, each once, only
-- permissions of the module that are ACTIVE where the catalog has them, or else where they are stored.
pub check_catalog-IsConsistent :
    (lower : Text → Text) (stored : List StoredPermission) (path_module_key : Text)
    (catalog : CatalogInput)
    → check_catalog lower stored path_module_key catalog ≡ ok tt
    → IsConsistent stored (lower (strip path_module_key)) catalog
unfolding check_catalog validate_catalog
check_catalog-IsConsistent lower stored path_module_key catalog h =
    let m = lower (strip path_module_key) in
    let same = text_eq (lower (strip catalog.module_key)) m in
    let (_, e1, h1) = >>=-eq-ok (refuse_if (is_empty m || not same)) _ h in
    let (_, _, h2) = >>=-eq-ok (refuse_if (is_blank catalog.module_name)) _ h1 in
    let (_, _, h3) = >>=-eq-ok (refuse_if (is_blank catalog.catalog_version)) _ h2 in
    let (_, e4, h4) =
      >>=-eq-ok (refuse_if (has_duplicates (map (λ p. p.key) catalog.permissions))) _ h3 in
    let (_, e5, h5) = >>=-eq-ok (each (validate_permission m) catalog.permissions) _ h4 in
    let (_, e6, h6) =
      >>=-eq-ok (refuse_if (has_duplicates (map (λ t. t.key) catalog.role_templates))) _ h5 in
    record {
      named = (or_false (is_empty m) (not same) (refused-eq-ok _ e1)).0;
      distinct_permissions = refused-eq-ok _ e4;
      distinct_templates = refused-eq-ok _ e6;
      permissions =
          each-All (validate_permission m) (IsOfModule m) (validate_permission-IsOfModule m)
            catalog.permissions e5;
      templates =
          each-All (validate_template stored m catalog) (IsUsableTemplate stored m catalog)
            (validate_template-IsUsableTemplate stored m catalog) catalog.role_templates h6;
    }
