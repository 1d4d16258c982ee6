-- ===== src/Access/Machine/Authentic.antt =====
-- What the checks of a machine's credential and of the permissions it asks for establish.
use mathlib.Core.Path.{◌≡◌, ◌∙◌, sym, subst}
use native.Mathlib.Omega.{arith}
use verigence_security.Common.{
  Bool, true, false, ◌||◌, not, List, Text, text_eq, text_eq_sound, ◌==◌, every, select, length,
}
use verigence_security.Core.Types.{Uuid, Instant}
use verigence_security.Core.Errors.{permission_denied, machine_credential_invalid}
use verigence_security.Core.Result.{ok, deny_if, >>=-eq-ok, deny_if-eq-ok, ok-injective}
use verigence_security.Db.Schema.{Db}
use verigence_security.Permissions.Ordered.{has, is_subset, every-has}
use verigence_security.Permissions.Validate.{
  validate_permissions, IsValidated, validate_permissions-IsValidated,
}
use verigence_security.Repository.Machine.{
  MachineCredential, machine_credential, machine_permissions,
}
use verigence_security.Access.Machine.Credential.{
  verifier_of, is_hex_char, check_secret, authenticate_credential, is_asked, none_asked,
  requested_permissions, authorized_permissions,
}

-- The stored verifier is the hash of the secret, in hexadecimal.
pub record IsAuthentic (sha256_hex : Text → Text) (client_id client_secret : Text) (now : Instant)
    (db : Db) (c : MachineCredential) : Type 0 where
  pub known : machine_credential client_id now db ≡ ok c
  pub is_digest : (length (verifier_of c.secret_hash) == 64) ≡ true
  pub is_hex : every is_hex_char (verifier_of c.secret_hash) ≡ true
  pub same : verifier_of c.secret_hash ≡ sha256_hex client_secret

pub authenticate_credential-IsAuthentic :
    (sha256_hex : Text → Text) (client_id client_secret : Text) (now : Instant) (db : Db)
    (c : MachineCredential)
    → authenticate_credential sha256_hex client_id client_secret now db ≡ ok c
    → IsAuthentic sha256_hex client_id client_secret now db c
unfolding authenticate_credential check_secret
authenticate_credential-IsAuthentic sha256_hex client_id client_secret now db c h =
    let (x, ex, h1) = >>=-eq-ok (machine_credential client_id now db) _ h in
    let (_, es, h2) = >>=-eq-ok (check_secret sha256_hex x client_secret) _ h1 in
    let v = verifier_of x.secret_hash in
    let (_, ef, h3) =
      >>=-eq-ok
        (deny_if (not (length v == 64) || not (every is_hex_char v)) machine_credential_invalid) _
        es in
    let well_formed =
      deny_if-eq-ok (not (length v == 64) || not (every is_hex_char v)) machine_credential_invalid
        ef in
    let equal =
      deny_if-eq-ok (not (text_eq v (sha256_hex client_secret))) machine_credential_invalid h3 in
    subst (IsAuthentic sha256_hex client_id client_secret now db) (ok-injective h2) (record {
      known = ex;
      is_digest = first_true (length v == 64) (every is_hex_char v) well_formed;
      is_hex = second_true (length v == 64) (every is_hex_char v) well_formed;
      same =
          text_eq_sound v (sha256_hex client_secret)
            (not_false (text_eq v (sha256_hex client_secret)) equal);
    })
  where
    not_false : (b : Bool) → not b ≡ false → b ≡ true
    not_false b h = ground arith

    first_true : (b c : Bool) → (not b || not c) ≡ false → b ≡ true
    first_true b c h = ground arith

    second_true : (b c : Bool) → (not b || not c) ≡ false → c ≡ true
    second_true b c h = ground arith

-- The permissions that are asked for: some, all canonical, in order.
pub record IsRequested (asked ps : List Text) : Type 0 where
  pub asks : none_asked (select is_asked asked) ≡ false
  pub validated : IsValidated (select is_asked asked) ps

pub requested_permissions-IsRequested :
    (asked ps : List Text) → requested_permissions asked ≡ ok ps → IsRequested asked ps
unfolding requested_permissions
requested_permissions-IsRequested asked ps h =
    let (_, e, h1) =
      >>=-eq-ok (deny_if (none_asked (select is_asked asked)) permission_denied) _ h in
    record {
      asks = deny_if-eq-ok _ permission_denied e;
      validated = validate_permissions-IsValidated (select is_asked asked) ps h1;
    }

-- What is asked for is among the permissions that the principal holds in the tenant.
pub record IsAuthorized (principal_id tenant_id : Uuid) (asked : List Text) (now : Instant)
    (db : Db) (ps : List Text) : Type 0 where
  pub stored : List Text
  pub holds : machine_permissions principal_id tenant_id now db ≡ ok stored
  pub requested : IsRequested asked ps
  pub within : (p : Text) → has p ps ≡ true → has p stored ≡ true

pub authorized_permissions-IsAuthorized :
    (principal_id tenant_id : Uuid) (asked : List Text) (now : Instant) (db : Db) (ps : List Text)
    → authorized_permissions principal_id tenant_id asked now db ≡ ok ps
    → IsAuthorized principal_id tenant_id asked now db ps
unfolding authorized_permissions
authorized_permissions-IsAuthorized principal_id tenant_id asked now db ps h =
    let (r, er, h1) = >>=-eq-ok (requested_permissions asked) _ h in
    let (stored, es, h2) = >>=-eq-ok (machine_permissions principal_id tenant_id now db) _ h1 in
    let (allowed, ea, h3) = >>=-eq-ok (validate_permissions stored) _ h2 in
    let (_, ed, h4) = >>=-eq-ok (deny_if (not (is_subset r allowed)) permission_denied) _ h3 in
    let v = validate_permissions-IsValidated stored allowed ea in
    let sub =
      not_false (is_subset r allowed)
        (deny_if-eq-ok (not (is_subset r allowed)) permission_denied ed) in
    subst (IsAuthorized principal_id tenant_id asked now db) (ok-injective h4) (record {
      stored = stored;
      holds = es;
      requested = requested_permissions-IsRequested asked r er;
      within = λ p m. sym (v.same_members p) ∙ every-has (λ x. has x allowed) r p sub m;
    })
  where
    not_false : (b : Bool) → not b ≡ false → b ≡ true
    not_false b h = ground arith
