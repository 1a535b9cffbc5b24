-- ===== src/Headers/Text.antt =====
-- The texts that are made of addresses and service families: the stream operators of
-- src/knx/headers/KnxAddress.cpp and `ServiceFamily::toString`. A text is its bytes.
pub mod Laws
use libknx.Prelude.{ℕ, List, [], ◌∷◌, ◌++◌}
use libknx.Headers.IpAddress.{decimal}
use libknx.Headers.KnxAddress.{KnxAddress, GroupAddress, IndividualAddress}
use libknx.Headers.ServiceFamilies.{
  ServiceFamily, ServiceFamilyType, knx_ip_core, knx_net_device_mgmt, knx_ip_tunneling,
  knx_ip_routing, knx_ip_remote_diag_and_config, unknown,
}

abbrev pub separated : ℕ → KnxAddress → List ℕ
separated mark a = decimal a.high ++ mark ∷ (decimal a.middle ++ mark ∷ decimal a.low)

-- `operator<<` with slashes
unfoldable pub group_text : GroupAddress → List ℕ
group_text address = separated 47 address

-- `operator<<` with dots
unfoldable pub individual_text : IndividualAddress → List ℕ
individual_text address = separated 46 address

-- "Knx Net ip "
abbrev net_ip : List ℕ
net_ip = 75 ∷ 110 ∷ 120 ∷ 32 ∷ 78 ∷ 101 ∷ 116 ∷ 32 ∷ 105 ∷ 112 ∷ 32 ∷ []

unfoldable pub type_text : ServiceFamilyType → List ℕ
type_text knx_ip_core = net_ip ++ 67 ∷ 111 ∷ 114 ∷ 101 ∷ []
type_text knx_net_device_mgmt =
    net_ip ++ 100 ∷ 101 ∷ 118 ∷ 105 ∷ 99 ∷ 101 ∷ 32 ∷ 109 ∷ 103 ∷ 116 ∷ []
type_text knx_ip_tunneling = net_ip ++ 116 ∷ 117 ∷ 110 ∷ 110 ∷ 101 ∷ 108 ∷ 105 ∷ 110 ∷ 103 ∷ []
type_text knx_ip_routing = net_ip ++ 114 ∷ 111 ∷ 117 ∷ 116 ∷ 105 ∷ 110 ∷ 103 ∷ []
type_text knx_ip_remote_diag_and_config =
    net_ip
    ++ 114 ∷ 101 ∷ 109 ∷ 111 ∷ 116 ∷ 101 ∷ 32 ∷ 100 ∷ 105 ∷ 97 ∷ 103 ∷ 32 ∷ 97 ∷ 110 ∷ 100 ∷ 32 ∷ 99
      ∷ 111 ∷ 110 ∷ 102 ∷ 105 ∷ 103 ∷ []
type_text unknown = 85 ∷ 110 ∷ 107 ∷ 110 ∷ 111 ∷ 119 ∷ 110 ∷ 32 ∷ 84 ∷ 121 ∷ 112 ∷ 101 ∷ []

-- ", version: "
abbrev version_mark : List ℕ
version_mark = 44 ∷ 32 ∷ 118 ∷ 101 ∷ 114 ∷ 115 ∷ 105 ∷ 111 ∷ 110 ∷ 58 ∷ 32 ∷ []

-- `toString`
unfoldable pub to_string : ServiceFamily → List ℕ
to_string f = type_text f.type ++ (version_mark ++ decimal f.version)
