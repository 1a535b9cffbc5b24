-- ===== src/Headers/DeviceDib/Laws.antt =====
-- The description block of a device on the wire, and what `write` leaves of it.
use libknx.Prelude.{
  ℕ, ◌≤◌, ◌<◌, ◌≡◌, ◌≢◌, List, [], ◌∷◌, ◌++◌, arith, length, length-append, All, append-nil,
  append_assoc, drop-append,
}
use libknx.Bytes.Parser.{Endian, err, out_of_range}
use libknx.Bytes.Reader.{read_terminated_string}
use libknx.Bytes.Wire.{
  Reads, Appends, Decodes, Decodes-wire, Reads-pure, Reads-bind, Reads-last, Reads-uint8,
  reader_after, Reads-copy_of, Appends-uint8, Appends-span, Appends-then, Appends-as,
}
use libknx.Bytes.Text.{padded, read_terminated_string-Reads}
use libknx.Bytes.Stops.{Stops, Stops-bind, Stops-first, Stops-span}
use libknx.Bytes.Values.{bytes16, Appends-uint16, Reads-uint16}
use libknx.Headers.KnxStructure
use libknx.Headers.KnxAddress.Individual
use libknx.Headers.KnxAddress.Individual.{IsIndividual, individual_bytes}
use libknx.Headers.IpAddress
use libknx.Headers.IpAddress.{address_bytes}
use libknx.Headers.DeviceDib.{DeviceDib, parse, write}

pub record IsDevice (d : DeviceDib) : Type 0 where
  pub address : IsIndividual d.individual_address
  pub project : d.project_installation_identifier < 65536
  pub serial : length d.serial_number ≡ 6
  pub mac : length d.mac_address ≡ 6
  pub name : All (λ c. c ≢ 0) d.device_name
  pub name_fits : length d.device_name ≤ 30

module _ (native : Endian) where
  -- The fields between the length and the name.
  abbrev pub fields : DeviceDib → List ℕ → List ℕ
  fields d name =
      0x01
      ∷ d.knx_medium
      ∷ d.device_status
      ∷ (individual_bytes d.individual_address
          ++ (bytes16 native d.project_installation_identifier
              ++ (d.serial_number
                  ++ (address_bytes d.multicast_address ++ (d.mac_address ++ name)))))

  -- The block with all 54 bytes that its length announces.
  abbrev pub device_bytes : DeviceDib → List ℕ
  device_bytes d = 54 ∷ fields d (padded 30 d.device_name)

  parse-Reads : (d : DeviceDib) → IsDevice d → Reads (parse native) (device_bytes d) d
  unfolding parse
  parse-Reads d v = Reads-bind _ (KnxStructure.parse-Reads native 0x01 54 (omega arith)) (
      Reads-bind _ (Reads-uint8 d.knx_medium) (
        Reads-bind _ (Reads-uint8 d.device_status) (
          Reads-bind _ (Individual.parse-Reads d.individual_address v.address) (
            Reads-bind _ (Reads-uint16 native d.project_installation_identifier v.project) (
              Reads-bind _ (Reads-copy_of d.serial_number v.serial) (
                Reads-bind _ (IpAddress.parse-Reads d.multicast_address) (
                  Reads-bind _ (Reads-copy_of d.mac_address v.mac) (
                    Reads-last _ (read_terminated_string-Reads d.device_name 30 v.name v.name_fits)
                      (Reads-pure _)))))))))

  -- A device block of the announced 54 bytes, its name padded with zeros, gives all its fields.
  pub parse-device_bytes : (d : DeviceDib) → IsDevice d → Decodes (parse native) (device_bytes d) d
  parse-device_bytes d v = Decodes-wire (parse-Reads d v)

  write-Appends : (d : DeviceDib) → IsDevice d → Appends (write native d) (2 ∷ fields d [])
  unfolding write
  write-Appends d v =
      Appends-as
        (Appends-then
          (Appends-then
            (Appends-then
              (Appends-then
                (Appends-then
                  (Appends-then
                    (Appends-then
                      (KnxStructure.write_knx_structure-Appends native 0x01 2 (omega arith))
                      (Appends-uint8 d.knx_medium))
                    (Appends-uint8 d.device_status))
                  (Individual.write-Appends d.individual_address v.address))
                (Appends-uint16 native d.project_installation_identifier v.project))
              (Appends-span d.serial_number))
            (IpAddress.write-Appends d.multicast_address))
          (Appends-span d.mac_address))
        (simp (append_assoc, append-nil))

  name_missing : Stops (read_terminated_string 30) [] out_of_range
  unfolding read_terminated_string
  name_missing = Stops-first _ (Stops-span 29)

  write-Stops : (d : DeviceDib) → IsDevice d → Stops (parse native) (2 ∷ fields d []) out_of_range
  unfolding parse
  write-Stops d v = Stops-bind _ (KnxStructure.parse-Reads native 0x01 2 (omega arith)) (
      Stops-bind _ (Reads-uint8 d.knx_medium) (
        Stops-bind _ (Reads-uint8 d.device_status) (
          Stops-bind _ (Individual.parse-Reads d.individual_address v.address) (
            Stops-bind _ (Reads-uint16 native d.project_installation_identifier v.project) (
              Stops-bind _ (Reads-copy_of d.serial_number v.serial) (
                Stops-bind _ (IpAddress.parse-Reads d.multicast_address) (
                  Stops-bind _ (Reads-copy_of d.mac_address v.mac)
                    (Stops-first _ name_missing))))))))

  -- What `write` emits announces two bytes and has no name: it never suffices for `parse`, which
  -- reads outside the span.
  pub parse-write_faults :
      (d : DeviceDib)
      → IsDevice d
      → (out : List ℕ) → parse native (reader_after out (write native d out)) ≡ err out_of_range
  parse-write_faults d v out = rw ((write-Appends d v).run out) (
      (write-Stops d v).run (reader_after out (out ++ 2 ∷ fields d []))
        (omega (arith, length-append out (2 ∷ fields d []))) (drop-append out _))
