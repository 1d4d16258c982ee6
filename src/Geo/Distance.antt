-- ===== src/Geo/Distance.antt =====
-- The geo sample and the location candidates, the great-circle distance, and `validate_geo`.
use verigence_security.Common.{
  ℕ, ◌+◌, ◌*◌, ◌-◌, ◌≤◌, ◌≡◌, ◌↔◌, false, ◌||◌, Option, none, some, Text, ltb, if◌then◌else◌, arith,
}
use verigence_security.Core.Types.{
  Uuid, Instant, Double, Timestamp, as_utc, GeoSource, GeoIntegrityStatus, is_suspected,
}
use verigence_security.Core.Errors.{
  security_error, security, domain_error, geo_integrity_failed, geo_accuracy_insufficient,
  geo_stale,
}
use verigence_security.Core.Result.{Result, ok, err, ◌>>=◌, ◌>>◌, deny_if}
use verigence_security.Platform.Doubles.{Doubles}

pub record GeoSample : Type 0 where
  pub latitude : Double
  pub longitude : Double
  pub accuracy_meters : Double
  pub captured_at : Timestamp
  pub source : GeoSource
  pub integrity_status : GeoIntegrityStatus
  pub integrity_reason : Option Text

pub record LocationCandidate : Type 0 where
  pub location_id : Uuid
  pub latitude : Double
  pub longitude : Double
  pub allowed_radius_meters : Double
  pub timezone_iana : Text
  pub schedule_id : Uuid

-- The value of a `math` function, or its `ValueError`.
abbrev pub in_domain : Option Double → Result Double
in_domain none = err domain_error
in_domain (some x) = ok x

abbrev pub earth_radius_meters : ℕ
earth_radius_meters = 6371000

module _ (d : Doubles) where
  open d use {of_int, add, sub, mul, div, pow, radians, sin, cos, asin, sqrt, lt}

  unfoldable pub haversine_meters : Double → Double → Double → Double → Result Double
  haversine_meters lat1 lon1 lat2 lon2 = do
    let p1 = radians lat1
    let p2 = radians lat2
    let dphi = radians (sub lat2 lat1)
    let dlambda = radians (sub lon2 lon1)
    s ← in_domain (sin (div dphi (of_int 2)))
    c1 ← in_domain (cos p1)
    c2 ← in_domain (cos p2)
    t ← in_domain (sin (div dlambda (of_int 2)))
    let a = add (pow s (of_int 2)) (mul (mul c1 c2) (pow t (of_int 2)))
    r ← in_domain (sqrt a)
    h ← in_domain (asin r)
    ok (mul (mul (of_int 2) (of_int earth_radius_meters)) h)

  -- The age is compared in microseconds: `total_seconds()` is exact to the microsecond in the range
  -- of the policy's `integer` column, and a negative age is a capture after `now`.
  unfoldable pub validate_geo : GeoSample → Double → ℕ → Instant → Result (Unit {0})
  validate_geo sample max_accuracy_meters max_age_seconds now =
      let captured = as_utc sample.captured_at in
      if is_suspected sample.integrity_status
      then err (security (security_error geo_integrity_failed sample.integrity_reason))
      else do
        deny_if (lt max_accuracy_meters sample.accuracy_meters) geo_accuracy_insufficient
        deny_if (ltb now captured || ltb (max_age_seconds * 1000000) (now - captured)) geo_stale

  -- What an accepted sample satisfies.
  pub record IsFresh (sample : GeoSample) (max_accuracy_meters : Double) (max_age_seconds : ℕ)
      (now : Instant) : Type 0 where
    pub not_suspected : is_suspected sample.integrity_status ≡ false
    pub accurate : lt max_accuracy_meters sample.accuracy_meters ≡ false
    pub not_future : as_utc sample.captured_at ≤ now
    pub not_stale : now ≤ as_utc sample.captured_at + max_age_seconds * 1000000

  -- `validate_geo` accepts a sample exactly when it is not suspected of spoofing, accurate enough,
  -- not captured in the future and not older than the limit.
  pub validate_geo_iff :
      (sample : GeoSample) (acc : Double) (age : ℕ) (now : Instant)
      → (validate_geo sample acc age now ≡ ok tt) ↔ IsFresh sample acc age now
  unfolding validate_geo
  validate_geo_iff sample acc age now = (λ h. ground arith, λ k. ground arith)
