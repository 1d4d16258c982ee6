-- ===== src/Platform/Zones.antt =====
-- `ZoneInfo`: a zone by its IANA name, none if the name is unknown. A zone carries instants to its
-- wall clock, and wall-clock times, read with `fold=0`, to instants.
use mathlib.Core.Option.{Option}
use verigence_security.Common.{Text}
use verigence_security.Core.Types.{Instant, WallTime}

pub record Zone : Type 0 where
  pub to_local : Instant → WallTime
  pub to_utc : WallTime → Instant

abbrev pub Zones : Type 0
Zones = Text → Option Zone
