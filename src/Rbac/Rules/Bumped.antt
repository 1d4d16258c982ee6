-- ===== src/Rbac/Rules/Bumped.antt =====
-- What the bump of the authorization versions leaves true of the tables.
use verigence_security.Common.{Bool, true, false, List, [], ◌∷◌, any, if◌then◌else◌, update_where}
use verigence_security.Core.Types.{Uuid, Instant}
use verigence_security.Db.Schema.{Db, AuthorizationStateRow}
use verigence_security.Rbac.Rules.{
  Rules, bump_each, bump_versions, sorted_ids, upsert_version, global_rules, is_state_of,
  bumped_state,
}

pub bump_versions-keeps :
    (Q : Db → Type 0) (rules : Rules) (t : Uuid) (now : Instant)
    → ((u : Uuid) (db : Db) → Q db → Q (rules.bump_version t now u db))
    → (us : List Uuid) (db : Db) → Q db
    → Q (bump_versions rules t us now db)
unfolding bump_versions bump_each
bump_versions-keeps Q rules t now k us db h = each (sorted_ids us) db h
  where
    each : (us : List Uuid) (db : Db) → Q db → Q (bump_each (rules.bump_version t now) us db)
    each [] db h = h
    each (u ∷ us) db h = each us (rules.bump_version t now u db) (k u db h)

-- The gate's bump changes the versions only.
pub upsert_version-keeps :
    (Q : Db → Type 0)
    → ((db : Db) (rows : List AuthorizationStateRow)
        → Q db
        → Q (record db { authorization_states = rows }))
    → (t : Uuid) (now : Instant) (u : Uuid) (db : Db) → Q db
    → Q (upsert_version t now u db)
unfolding upsert_version
upsert_version-keeps Q k t now u db h = chosen (any (is_state_of t u) db.authorization_states)
  where
    chosen :
        (b : Bool)
        → Q (
            if b
            then record db {
              authorization_states =
                  update_where (is_state_of t u) (bumped_state now) db.authorization_states;
            }
            else record db {
              authorization_states =
                  record { user_id = u; tenant_id = t; authorization_version = 2; updated_at = now }
                  ∷ db.authorization_states;
            })
    chosen true = k db _ h
    chosen false = k db _ h

pub global_bump-keeps :
    (Q : Db → Type 0)
    → ((db : Db) (rows : List AuthorizationStateRow)
        → Q db
        → Q (record db { authorization_states = rows }))
    → (t : Uuid) (now : Instant) (us : List Uuid) (db : Db) → Q db
    → Q (bump_versions global_rules t us now db)
global_bump-keeps Q k t now =
    bump_versions-keeps Q global_rules t now (upsert_version-keeps Q k t now)
