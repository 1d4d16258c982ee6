-- ===== src/Tests/Basics.antt =====
-- The checks by themselves: texts, times, places and tokens.
use mathlib.Core.Path.{◌≡◌, refl, sym, ap, ◌∙◌, subst}
use mathlib.Core.Logic.{◌⊎◌, inl, inr}
use mathlib.Core.Option.{none, some}
use native.Mathlib.Omega.{arith}
use verigence_security.Common.{
  ℕ, ◌+◌, ◌-◌, ltb, if◌then◌else◌, ◌≤◌, ◌<◌, ◌↔◌, true, false, List, [], ◌∷◌, Text, codes, every,
  Among, Among-cons, not-Among-nil, leb,
}
use verigence_security.Core.Types.{user}
use verigence_security.Core.Errors.{location_not_allowed, value_error}
use verigence_security.Core.Result.{ok, err, deny, ok-injective}
use verigence_security.Platform.Zones.{Zone}
use verigence_security.Platform.Jwt.{Claims}
use verigence_security.Permissions.Canonical.{IsCanonical, is_canonical_permission}
use verigence_security.Permissions.Canonical.Grammar.{is_canonical_permission_iff}
use verigence_security.Permissions.Ordered.{sorted_set}
use verigence_security.Permissions.Validate.{
  validate_permissions, IsValidated, validate_permissions_lem,
}
use verigence_security.Geo.Distance.{
  LocationCandidate, IsFresh, validate_geo, validate_geo_iff, haversine_meters,
}
use verigence_security.Geo.Matching.{Match, Holds, Nearest, match_location, distance_to}
use verigence_security.Geo.Matching.Nearest.{match_location-Nearest, match_location_denied}
use verigence_security.Schedule.{ScheduleDecision, evaluate_schedule}
use verigence_security.Schedule.Windows.{
  ByOverride, ByWindow, NeverSetBack, PicksFirst, evaluate_schedule_sound,
  evaluate_schedule_complete, evaluate_schedule_future, evaluate_schedule_past,
}
use verigence_security.Tokens.{
  AccessTokenClaims, token_payload, validate_actor_claim_shape, issue, verify,
}
use verigence_security.Tokens.RoundTrip.{verify-issue}
use verigence_security.Tests.Platform.{
  numbers, numbers-IsOrdered, utc, zones, claims_eq, settings, jwt_for, jwt_for-KeepsText,
  jwt_for-KeysMatch, one_token,
}
use verigence_security.Tests.Data.{noon, sample, office, window, read_key}

is_canonical_permission_iff_example :
    (is_canonical_permission read_key ≡ true) ↔ IsCanonical read_key
is_canonical_permission_iff_example = is_canonical_permission_iff read_key

validate_permissions_lem_example :
    ((rs : List Text) × (every is_canonical_permission (read_key ∷ read_key ∷ []) ≡ true)
      × (validate_permissions (read_key ∷ read_key ∷ []) ≡ ok rs)
      × IsValidated (read_key ∷ read_key ∷ []) rs)
    ⊎ ((every is_canonical_permission (read_key ∷ read_key ∷ []) ≡ false)
        × (validate_permissions (read_key ∷ read_key ∷ []) ≡ err value_error))
validate_permissions_lem_example = validate_permissions_lem (read_key ∷ read_key ∷ [])

validate_geo_iff_example :
    (validate_geo numbers sample 50 60 noon ≡ ok tt) ↔ IsFresh numbers sample 50 60 noon
validate_geo_iff_example = validate_geo_iff numbers sample 50 60 noon

abbrev at_office : Match
at_office = (office, 0)

matched : match_location numbers sample (office ∷ []) ≡ ok at_office
unfolding match_location haversine_meters
matched = refl

match_location-Nearest_example :
    Holds numbers sample (office ∷ []) at_office × Nearest numbers sample (office ∷ []) at_office
match_location-Nearest_example =
    match_location-Nearest numbers numbers-IsOrdered sample (office ∷ []) at_office matched

-- A location that is out of reach.
abbrev depot : LocationCandidate
depot = record office { latitude = 1000; allowed_radius_meters = 1 }

measured_depot : distance_to numbers sample depot ≡ ok 3122108550000
unfolding haversine_meters
measured_depot = refl

too_far :
    (l : LocationCandidate) (x : ℕ)
    → l ≡ depot
    → distance_to numbers sample l ≡ ok x
    → leb x l.allowed_radius_meters ≡ true
    → ⊥
too_far l x e h w =
    let q : 3122108550000 ≡ x =
      ok-injective (sym measured_depot ∙ (ap (distance_to numbers sample) (sym e) ∙ h)) in
    let r : l.allowed_radius_meters ≡ 1 =
      ap (λ (c : LocationCandidate). c.allowed_radius_meters) e in
    ground arith

match_location_denied_example :
    match_location numbers sample (depot ∷ []) ≡ deny location_not_allowed
match_location_denied_example =
    match_location_denied numbers sample depot [] ((_, measured_depot), tt)
      (λ m k. too_far m.0 m.1 (only_depot m.0 (Among-cons k.assigned)) k.measured k.within)
  where
    only_depot : (l : LocationCandidate) → (l ≡ depot) ⊎ Among l [] → l ≡ depot
    only_depot l (inl e) = e
    only_depot l (inr m) = absurd (not-Among-nil m)

abbrev decision : ScheduleDecision
decision = record { local_time = noon; authorized_until = 666000000000 }

open_at_noon : evaluate_schedule zones noon (codes "UTC") (window ∷ []) none ≡ ok decision
unfolding evaluate_schedule
open_at_noon = refl

evaluate_schedule_sound_example :
    ByOverride noon none decision ⊎ ByWindow zones noon (codes "UTC") (window ∷ []) decision
evaluate_schedule_sound_example =
    evaluate_schedule_sound zones noon (codes "UTC") (window ∷ []) none decision open_at_noon

evaluate_schedule_complete_example :
    (dec : ScheduleDecision) × (evaluate_schedule zones noon (codes "UTC") (window ∷ []) none
      ≡ ok dec)
evaluate_schedule_complete_example =
    evaluate_schedule_complete zones noon (codes "UTC") (window ∷ []) utc 7 window refl
      (omega arith) (Among.here refl) (omega arith, omega arith) refl

steady : (z : Zone) → zones (codes "UTC") ≡ some z → NeverSetBack z
steady z h = let e : utc ≡ z = cc in subst NeverSetBack e (λ i w l. l)

evaluate_schedule_future_example : noon < 666000000000
evaluate_schedule_future_example =
    evaluate_schedule_future zones noon (codes "UTC") (window ∷ []) none decision steady
      open_at_noon

-- A zone one hour ahead, whose clock is set back from 17:30 to 16:30 on the day of `noon`.
abbrev set_back : Zone
set_back = record {
  to_local = λ i. if ltb i 664200000000 then i + 3600000000 else i;
  to_utc = λ w. if ltb w 667800000000 then w - 3600000000 else w;
}

set_back-PicksFirst : PicksFirst set_back
set_back-PicksFirst i = ground arith

-- The clock shows 16:55 for the second time, and has shown 17:00 before.
evaluate_schedule_past_example :
    (dec : ScheduleDecision) × (evaluate_schedule
        (λ name. some set_back)
        665700000000
        (codes "UTC")
        (window ∷ [])
        none
      ≡ ok dec)
    × (dec.authorized_until ≤ 665700000000)
evaluate_schedule_past_example =
    evaluate_schedule_past (λ name. some set_back) 665700000000 662400000000 (codes "UTC") set_back
      window [] refl set_back-PicksFirst (omega arith) refl (omega arith) refl

abbrev claims : AccessTokenClaims
claims = record {
  principal_id = codes "u";
  actor_type = user;
  tenant_id = codes "t";
  access_session_id = codes "s";
  permissions = read_key ∷ [];
  expires_at = 648600000000;
  roles = codes "CLERK" ∷ [];
  device_id = some (codes "d");
  location_id = some (codes "l");
  delegated_actor_id = none;
  subject = none;
}

-- The payload does not depend on how the tokens are spelled.
abbrev signed : Claims
signed = token_payload (jwt_for []) settings claims (read_key ∷ []) noon (codes "j")

issued : issue (jwt_for signed) settings claims noon (codes "j") ≡ ok one_token
unfolding issue token_payload validate_actor_claim_shape validate_permissions
    is_canonical_permission sorted_set claims_eq
issued = refl

verify-issue_example :
    (ps : List Text) × (validate_permissions (read_key ∷ []) ≡ ok ps)
    × (verify (jwt_for signed) settings one_token noon
        ≡ ok (token_payload (jwt_for signed) settings claims ps noon (codes "j")))
verify-issue_example =
    verify-issue (jwt_for signed) settings claims noon noon (codes "j") one_token
      (jwt_for-KeepsText signed) (jwt_for-KeysMatch signed) refl (omega arith) (omega arith) issued
