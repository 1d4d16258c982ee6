-- ===== src/Network.antt =====
-- adapters/network_risk.py: the adapter that a service is given is a function of the source address
-- and the correlation id; the two implementations of the repository are below.
use verigence_security.Common.{List, [], ◌∷◌, Option, none, Text, codes}
use verigence_security.Core.Types.{VpnStatus}
use verigence_security.Core.Result.{Result, ok}

pub record NetworkRiskResult : Type 0 where
  pub vpn_status : VpnStatus
  pub risk_reasons : List Text
  pub provider_reference : Option Text

abbrev pub NetworkRiskAdapter : Type 0
NetworkRiskAdapter = Text → Text → Result NetworkRiskResult

unfoldable pub mock_network_risk_adapter : VpnStatus → NetworkRiskAdapter
mock_network_risk_adapter status source_ip correlation_id = ok (record {
  vpn_status = status;
  risk_reasons = codes "DEV_MOCK" ∷ [];
  provider_reference = none;
})

unfoldable pub unknown_network_risk_adapter : NetworkRiskAdapter
unknown_network_risk_adapter source_ip correlation_id = ok (record {
  vpn_status = VpnStatus.unknown;
  risk_reasons = codes "PROVIDER_NOT_CONFIGURED" ∷ [];
  provider_reference = none;
})
