-- ===== src/Headers/Tests.antt =====
-- The theorems on addresses, endpoints and description blocks, at examples.
use libknx.Prelude.{◌-◌, ◌<◌, ◌≡◌, ◌↔◌, refl, [], ◌∷◌, ◌++◌, length, true, arith}
use libknx.Bytes.Parser.{little, ok, err, out_of_range}
use libknx.Bytes.Wire.{reader_after}
use libknx.Headers.KnxAddress.{KnxAddress, less}
use libknx.Headers.KnxAddress.Order.{number, less_iff}
use libknx.Headers.Hpai
use libknx.Headers.Hpai.{Hpai, parse-write_hpai}
use libknx.Headers.DeviceDib
use libknx.Headers.DeviceDib.{DeviceDib}
use libknx.Headers.DeviceDib.Laws.{IsDevice, parse-write_faults}
use libknx.Headers.ServiceFamilies
use libknx.Headers.ServiceFamilies.{
  SupportedServiceFamiliesDib, ServiceFamily, knx_ip_core, knx_ip_tunneling,
}
use libknx.Headers.ServiceFamilies.Laws.{parse-write_drops_last}

abbrev first : KnxAddress
first = record { high = 1; middle = 1; low = 4 }

abbrev second : KnxAddress
second = record { high = 1; middle = 2; low = 0 }

abbrev endpoint : Hpai
endpoint = Hpai.new (record { address = (192, 168, 1, 2) }) 3671 Hpai.tcp

less_iff_example : (less first second ≡ true) ↔ (number first < number second)
less_iff_example =
    less_iff first second (omega arith, omega arith, omega arith)
      (omega arith, omega arith, omega arith)

abbrev device : DeviceDib
device = record {
  individual_address = first;
  device_name = 0x4b ∷ 0x4e ∷ 0x58 ∷ [];
  serial_number = 0 ∷ 1 ∷ 2 ∷ 3 ∷ 4 ∷ 5 ∷ [];
  knx_medium = 2;
  device_status = 0;
  project_installation_identifier = 17;
  multicast_address = record { address = (224, 0, 23, 12) };
  mac_address = 6 ∷ 7 ∷ 8 ∷ 9 ∷ 10 ∷ 11 ∷ [];
}

device-IsDevice : IsDevice device
device-IsDevice = record {
  address = (omega arith, omega arith, omega arith);
  project = omega arith;
  serial = refl;
  mac = refl;
  name = (omega arith, (omega arith, (omega arith, tt)));
  name_fits = omega arith;
}

parse-write_faults_example :
    DeviceDib.parse little (reader_after (1 ∷ []) (DeviceDib.write little device (1 ∷ [])))
    ≡ err out_of_range
parse-write_faults_example = parse-write_faults little device device-IsDevice (1 ∷ [])

abbrev core : ServiceFamily
core = record { type = knx_ip_core; version = 1 }

abbrev tunneling : ServiceFamily
tunneling = record { type = knx_ip_tunneling; version = 2 }

parse-write_drops_last_example :
    ServiceFamilies.parse little (
      reader_after [] (
        ServiceFamilies.write little (record { service_families = core ∷ tunneling ∷ [] }) []
        ++ []))
    ≡ ok (
      record { service_families = core ∷ [] },
      record {
        bytes =
            ServiceFamilies.write little (record { service_families = core ∷ tunneling ∷ [] }) []
            ++ [];
        index =
            length (
              ServiceFamilies.write little (record { service_families = core ∷ tunneling ∷ [] }) [])
            - 2;
      },
    )
parse-write_drops_last_example =
    parse-write_drops_last little (core ∷ []) tunneling (omega arith) [] []
