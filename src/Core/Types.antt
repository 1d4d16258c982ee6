-- ===== src/Core/Types.antt =====
-- core/types.py, and the scalar types of the rows and requests.
use Prim.Native.Nat.{ℕ}
use mathlib.Core.Bool.{Bool, true, false}

-- The 128 bits of a UUID.
abbrev pub Uuid : Type 0
Uuid = ℕ

-- Microseconds since 0001-01-01T00:00:00 UTC, the least value of a Python datetime.
abbrev pub Instant : Type 0
Instant = ℕ

-- Microseconds since 0001-01-01T00:00:00 on the clock of some zone.
abbrev pub WallTime : Type 0
WallTime = ℕ

-- The 64 bits of a float.
abbrev pub Double : Type 0
Double = ℕ

-- A datetime as it reaches the code: with no zone, or with one (held as the instant it denotes).
pub data Timestamp : Type 0 where
  naive : WallTime → Timestamp
  aware : Instant → Timestamp

-- `value if value.tzinfo else value.replace(tzinfo=UTC)`, then `.astimezone(UTC)`
abbrev pub as_utc : Timestamp → Instant
as_utc (naive w) = w
as_utc (aware i) = i

pub data AppEnvironment : Type 0 where
  local ci dev uat production : AppEnvironment

pub data ActorType : Type 0 where
  user system service_integration : ActorType

abbrev pub is_user : ActorType → Bool
is_user user = true
is_user _ = false

pub data GeoSource : Type 0 where
  native browser : GeoSource

pub data GeoIntegrityStatus : Type 0 where
  normal suspected unknown : GeoIntegrityStatus

abbrev pub is_suspected : GeoIntegrityStatus → Bool
is_suspected suspected = true
is_suspected _ = false

pub data VpnStatus : Type 0 where
  detected not_detected unknown : VpnStatus

abbrev pub is_detected : VpnStatus → Bool
is_detected detected = true
is_detected _ = false

abbrev pub is_unknown : VpnStatus → Bool
is_unknown VpnStatus.unknown = true
is_unknown _ = false

pub data PolicyAction : Type 0 where
  deny flag : PolicyAction

abbrev pub is_deny : PolicyAction → Bool
is_deny deny = true
is_deny _ = false
