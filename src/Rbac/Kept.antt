-- ===== src/Rbac/Kept.antt =====
-- What the statements that the administration calls share leave true of the tables.
use mathlib.Core.Path.{◌≡◌, refl, sym}
use verigence_security.Common.{ℕ, Bool, true, false, List, Text}
use verigence_security.Core.Types.{Uuid}
use verigence_security.Core.Errors.{Exc}
use verigence_security.Core.Result.{ok, err, ok-ne-err}
use verigence_security.Db.Schema.{Db, AdminChangeRow}
use verigence_security.Db.Transaction.{Action}
use verigence_security.Db.Steps.{Outcome}
use verigence_security.Db.Kept.{Holds, Keeps, >>=-Keeps, writes-Keeps, draw-Keeps}
use verigence_security.Rbac.Rows.{Change, audit, insert_unless, require}
use verigence_security.Rbac.Gate.Assign.{on_integrity_error, caught}

pub insert_unless-keeps :
    (Q : Db → Type 0) (b : Bool) (d e : Db) → Q d → Q e → Q (insert_unless b d e).1
insert_unless-keeps Q true d e h k = h
insert_unless-keeps Q false d e h k = k

pub insert_unless_ok :
    (b : Bool) (d e : Db) → (insert_unless b d e).0 ≡ ok tt → (insert_unless b d e).1 ≡ e
insert_unless_ok true d e h = absurd (ok-ne-err (sym h))
insert_unless_ok false d e h = refl

pub require-eq-ok : (b : Bool) → require b ≡ ok tt → b ≡ true
require-eq-ok true h = refl
require-eq-ok false h = absurd (ok-ne-err (sym h))

module _ {C W : Db → Type 0} where
  -- The record of the changes stands in a table of its own.
  pub audit-Keeps :
      ((db : Db) (rows : List AdminChangeRow) → W db → W (record db { admin_changes = rows }))
      → (uuid4 : ℕ → Uuid) (c : Change) (k t i : Text) → Keeps C W (audit uuid4 c k t i)
  unfolding audit
  audit-Keeps apart uuid4 c k t i =
      >>=-Keeps (draw-Keeps uuid4)
        (λ id. writes-Keeps _ (λ db h. insert_unless-keeps W _ db _ h (apart db _ h)))

  pub on_integrity_error-Keeps :
      {A : Type 0} {body handler : Action A}
      → Keeps C W body
      → Keeps C W handler
      → Keeps C W (on_integrity_error body handler)
  unfolding on_integrity_error
  on_integrity_error-Keeps {A} {body} {handler} k l = record {
    keeps = λ s p. run (body s) (k.keeps s p);
  }
    where
      run : (o : Outcome A) → Holds C W o.1 → Holds C W (caught handler o).1
      run (ok a, t) h = h
      run (err Exc.integrity_error, t) h = l.keeps t h
      run (err (Exc.security e), t) h = h
      run (err Exc.value_error, t) h = h
      run (err Exc.domain_error, t) h = h
      run (err Exc.type_error, t) h = h
      run (err Exc.overflow_error, t) h = h
      run (err Exc.zone_not_found, t) h = h
      run (err Exc.lookup_error, t) h = h
      run (err Exc.data_error, t) h = h
      run (err Exc.runtime_error, t) h = h
