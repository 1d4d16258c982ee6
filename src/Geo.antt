-- ===== src/Geo.antt =====
-- services/geo.py: the geo sample of a request, its validation, and the match against the assigned
-- locations.
pub mod Distance
pub mod Matching
