-- ===== src/Rbac/Gate/Sources.antt =====
-- Where a permission of the group-aware query comes from.
use mathlib.Core.Path.{◌≡◌, ◌∙◌, sym, ap}
use mathlib.Core.Logic.{◌⊎◌, inl, inr}
use native.Mathlib.Omega.{arith}
use verigence_security.Common.{true, List, [], ◌∷◌, ◌++◌, map, Text, text_eq, flat_map, Bool-cases}
use verigence_security.Core.Types.{Uuid, Instant}
use verigence_security.Core.Result.{ok, ok-ne-err, ok-injective}
use verigence_security.Db.Schema.{Db, RoleRow}
use verigence_security.Permissions.Ordered.{has, sorted_set, has-sorted_set}
use verigence_security.Repository.Roles.{
  Grant, direct_roles, group_roles_of, grants_of, platform_grants, require_grants,
  group_aware_permissions,
}

-- The permission is one of those that the grants hold.
abbrev pub Grants : List Grant → Text → Type 0
Grants rows key = has key (map (λ g. g.1) rows) ≡ true

Grants-++ :
    (xs ys : List Grant) (key : Text) → Grants (xs ++ ys) key → Grants xs key ⊎ Grants ys key
Grants-++ [] ys key h = inr h
Grants-++ (x ∷ xs) ys key h = elim (Bool-cases (text_eq key x.1)) [
  | inl t ↦ inl (ground arith)
  | inr f ↦ elim (Grants-++ xs ys key (ground arith)) [ inl a ↦ inl (ground arith) | inr b ↦ inr b ]
]

Grants-flat_map :
    (f : RoleRow → List Grant) (xs ys : List RoleRow) (key : Text)
    → Grants (flat_map f (xs ++ ys)) key
    → Grants (flat_map f xs) key ⊎ Grants (flat_map f ys) key
Grants-flat_map f [] ys key h = inr h
Grants-flat_map f (x ∷ xs) ys key h = elim (Grants-++ (f x) (flat_map f (xs ++ ys)) key h) [
  | inl a ↦ inl (left (f x) (flat_map f xs) a)
  | inr b ↦ elim (Grants-flat_map f xs ys key b) [
    | inl c ↦ inl (right (f x) (flat_map f xs) c)
    | inr d ↦ inr d
  ]
]
  where
    left : (as' bs : List Grant) → Grants as' key → Grants (as' ++ bs) key
    left [] bs h = absurd (ground arith)
    left (a ∷ as') bs h = elim (Bool-cases (text_eq key a.1)) [
      | inl t ↦ ground arith
      | inr n ↦ let ih = left as' bs (ground arith) in ground arith
    ]

    right : (as' bs : List Grant) → Grants bs key → Grants (as' ++ bs) key
    right [] bs h = h
    right (a ∷ as') bs h = let ih = right as' bs h in ground arith

require_grants_permissions :
    (rows : List Grant) (ps : List Text) (g : List Text × List Text)
    → require_grants rows ps ≡ ok g
    → ps ≡ g.1
require_grants_permissions rows [] g h = absurd (ok-ne-err (sym h))
require_grants_permissions rows (p ∷ ps) g h =
    ap (λ (x : List Text × List Text). x.1) (ok-injective h)

-- A permission of the query is one of the user's direct roles in the tenant, of the roles of the user's
-- groups there, or of the user's platform roles.
pub permission_source :
    (tenant_id user_id : Uuid) (now : Instant) (db : Db) (g : List Text × List Text) (key : Text)
    → group_aware_permissions tenant_id user_id now db ≡ ok g
    → has key g.1 ≡ true
    → Grants (flat_map (grants_of tenant_id db) (direct_roles tenant_id user_id now db)) key
      ⊎ Grants (flat_map (grants_of tenant_id db) (group_roles_of tenant_id user_id now db)) key
      ⊎ Grants (platform_grants user_id db) key
unfolding group_aware_permissions
permission_source tenant_id user_id now db g key h k =
    let of_tenant =
      flat_map (grants_of tenant_id db)
        (direct_roles tenant_id user_id now db ++ group_roles_of tenant_id user_id now db) in
    let rows = of_tenant ++ platform_grants user_id db in
    let held : Grants rows key =
      sym (has-sorted_set key (map (λ (x : Grant). x.1) rows))
      ∙ ap (has key) (require_grants_permissions rows (sorted_set (map (λ x. x.1) rows)) g h)
      ∙ k in
    elim (Grants-++ of_tenant (platform_grants user_id db) key held) [
      | inr p ↦ inr (inr p)
      | inl t ↦
          elim (Grants-flat_map (grants_of tenant_id db) (direct_roles tenant_id user_id now db)
            (group_roles_of tenant_id user_id now db) key t) [ inl d ↦ inl d | inr q ↦ inr (inl q) ]
    ]
