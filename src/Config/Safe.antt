-- ===== src/Config/Safe.antt =====
-- What the rules of the configuration keep out of the protected environments.
use mathlib.Core.Path.{◌≡◌, refl, sym}
use verigence_security.Common.{Bool, true, false, ◌&&◌, is_empty, arith, true-false}
use verigence_security.Core.Result.{ok, ok-ne-err, >>=-eq-ok, ok-injective}
use verigence_security.Config.{
  Settings, is_protected, is_production, is_mock, is_blank, refuse_if, when, mock_rules,
  platform_bootstrap_rules, security_bootstrap_rules, safety_rules,
}

-- The service runs without the aids of development.
pub record IsHardened (s : Settings) : Type 0 where
  pub no_mock_auth : s.dev_mock_auth_enabled ≡ false
  pub no_mock_risk : is_mock s.network_risk_mode ≡ false
  pub has_clerk_key : is_blank s.clerk_secret_key ≡ false
  pub no_platform_bootstrap : s.platform_bootstrap_enabled ≡ false
  pub has_database : (is_production s.app_env && is_empty s.database_url) ≡ false

refuse_if-eq-ok : (b : Bool) {u : Unit {0}} → refuse_if b ≡ ok u → b ≡ false
refuse_if-eq-ok true h = absurd (ok-ne-err (sym h))
refuse_if-eq-ok false h = refl

-- A configuration of UAT or production that is accepted has no mock authentication, no mock network-risk
-- adapter, a Clerk key that is not blank and no local bootstrap; in production it names its database.
pub safety_rules-IsHardened :
    (s t : Settings)
    → is_protected s.app_env ≡ true
    → safety_rules s ≡ ok t
    → (t ≡ s) × IsHardened s
unfolding safety_rules platform_bootstrap_rules
safety_rules-IsHardened s t p h =
    let (_, e1, h1) =
      >>=-eq-ok (refuse_if (is_protected s.app_env && s.dev_mock_auth_enabled)) _ h in
    let (_, e2, h2) =
      >>=-eq-ok (refuse_if (is_protected s.app_env && is_mock s.network_risk_mode)) _ h1 in
    let (_, e3, h3) =
      >>=-eq-ok (refuse_if (is_protected s.app_env && is_blank s.clerk_secret_key)) _ h2 in
    let (_, e4, h4) =
      >>=-eq-ok (refuse_if (is_production s.app_env && is_empty s.database_url)) _ h3 in
    let (_, e5, h5) = >>=-eq-ok (when s.dev_mock_auth_enabled (mock_rules s)) _ h4 in
    let (_, e6, h6) =
      >>=-eq-ok (when s.platform_bootstrap_enabled (platform_bootstrap_rules s)) _ h5 in
    let (_, e7, h7) =
      >>=-eq-ok (when s.security_bootstrap_enabled (security_bootstrap_rules s)) _ h6 in
    (
      sym (ok-injective h7),
      record {
        no_mock_auth = off _ _ p (refuse_if-eq-ok _ e1);
        no_mock_risk = off _ _ p (refuse_if-eq-ok _ e2);
        has_clerk_key = off _ _ p (refuse_if-eq-ok _ e3);
        no_platform_bootstrap = disabled s.platform_bootstrap_enabled e6;
        has_database = refuse_if-eq-ok _ e4;
      },
    )
  where
    off : (a b : Bool) → a ≡ true → (a && b) ≡ false → b ≡ false
    off a b h k = ground arith

    disabled : (b : Bool) {u : Unit {0}} → when b (platform_bootstrap_rules s) ≡ ok u → b ≡ false
    disabled false k = refl
    disabled true k =
        let (_, e, _) = >>=-eq-ok (refuse_if (is_protected s.app_env)) _ k in
        absurd (true-false (is_protected s.app_env) p (refuse_if-eq-ok _ e))
