-- ===== src/Access/Evidence.antt =====
-- The geo and location columns of an evaluation.
use verigence_security.Core.Types.{Double}
use verigence_security.Db.Schema.{SuppliedGeo, MatchedLocation}
use verigence_security.Geo.Distance.{GeoSample, LocationCandidate}

abbrev pub supplied_geo : GeoSample → SuppliedGeo
supplied_geo g = record {
  latitude = g.latitude;
  longitude = g.longitude;
  accuracy_meters = g.accuracy_meters;
  captured_at = g.captured_at;
  source = g.source;
  integrity_status = g.integrity_status;
  integrity_reason = g.integrity_reason;
}

abbrev pub matched_location : LocationCandidate → Double → MatchedLocation
matched_location l distance = record {
  matched_location_id = l.location_id;
  matched_distance_meters = distance;
  evaluated_timezone = l.timezone_iana;
  schedule_id = l.schedule_id;
}
