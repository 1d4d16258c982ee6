-- ===== src/Geo/Matching.antt =====
-- `match_location`: the nearest of the assigned locations whose radius holds the sample.
pub mod Nearest
use verigence_security.Common.{
  ◌≡◌, refl, sym, ap, ◌∙◌, Bool, true, false, List, [], ◌∷◌, arith, Among-cons, not-Among-nil,
  if◌then◌else◌, Among, Bool-cases, inl, inr, All,
}
use mathlib.Core.Path.{subst, ap₂}
use verigence_security.Core.Types.{Double}
use verigence_security.Core.Errors.{location_not_assigned, location_not_allowed}
use verigence_security.Core.Result.{Result, ok, err, deny, ◌>>=◌, >>=-eq-ok, ok-injective}
use verigence_security.Platform.Doubles.{Doubles, IsOrdered, IsNumber}
use verigence_security.Geo.Distance.{GeoSample, LocationCandidate, haversine_meters}

abbrev pub Match : Type 0
Match = LocationCandidate × Double

module _ (d : Doubles) where
  open d use {lt, le}

  abbrev pub distance_to : GeoSample → LocationCandidate → Result Double
  distance_to sample c = haversine_meters d sample.latitude sample.longitude c.latitude c.longitude

  -- The loop that collects `matches`.
  matches_in : GeoSample → List LocationCandidate → Result (List Match)
  matches_in sample [] = ok []
  matches_in sample (c ∷ cs) = do
    distance ← distance_to sample c
    rest ← matches_in sample cs
    ok (if le distance c.allowed_radius_meters then (c, distance) ∷ rest else rest)

  -- `min(matches, key=...)`: a later one replaces the best so far only if it is strictly nearer.
  nearest : Match → List Match → Match
  nearest best [] = best
  nearest best (m ∷ ms) = nearest (if lt m.1 best.1 then m else best) ms

  -- `if not matches: raise`, then `min`.
  choose : List Match → Result Match
  unfolding nearest
  choose [] = deny location_not_allowed
  choose (m ∷ ms) = ok (nearest m ms)

  unfoldable pub match_location : GeoSample → List LocationCandidate → Result Match
  unfolding matches_in choose
  match_location sample [] = deny location_not_assigned
  match_location sample (c ∷ cs) = do found ← matches_in sample (c ∷ cs); choose found

  -- A candidate that the loop keeps.
  pub record Holds (sample : GeoSample) (cs : List LocationCandidate) (m : Match) : Type 0 where
    pub assigned : Among m.0 cs
    pub measured : distance_to sample m.0 ≡ ok m.1
    pub within : le m.1 m.0.allowed_radius_meters ≡ true

  -- No candidate in reach is nearer than `m`.
  abbrev pub Nearest : GeoSample → List LocationCandidate → Match → Type 0
  Nearest sample cs m =
      (c : LocationCandidate) (x : Double) → Holds sample cs (c, x) → lt x m.1 ≡ false
