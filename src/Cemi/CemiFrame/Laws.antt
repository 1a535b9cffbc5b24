-- ===== src/Cemi/CemiFrame/Laws.antt =====
-- A frame on the wire, and what comes back from it.
use libknx.Prelude.{ℕ, ◌<◌, ◌≡◌, List, ◌∷◌, ◌++◌, Bool, true, false, append_assoc}
use libknx.Bytes.Wire.{
  Reads, Appends, RoundTrips, RoundTrips-wire, Reads-pure, Reads-bind, Reads-last, Reads-as,
  Reads-uint8, Appends-uint8, Appends-then, Appends-as,
}
use libknx.Headers.KnxAddress.Individual
use libknx.Headers.KnxAddress.Individual.{IsIndividual, individual_bytes}
use libknx.Headers.KnxAddress.Group
use libknx.Headers.KnxAddress.Group.{IsGroup, group_bytes}
use libknx.Cemi.AdditionalInformation.Laws as Information
use libknx.Cemi.AdditionalInformation.Laws.{IsShort, information_bytes}
use libknx.Cemi.Control.{Control, first_byte, second_byte}
use libknx.Cemi.Control.Laws as ControlBytes
use libknx.Cemi.NpduFrame.Laws as Npdu
use libknx.Cemi.NpduFrame.Laws.{IsNpdu, received}
use libknx.Cemi.CemiFrame.{
  Cemi, Destination, individual, group, parse_address, write_address, parse, write,
}

-- The destination has the kind that the control field announces, and fits its bytes.
abbrev pub IsDestination : Bool → Destination → Type 0
IsDestination is_group (individual a) = (is_group ≡ false) × IsIndividual a
IsDestination is_group (group a) = (is_group ≡ true) × IsGroup a

pub record IsCemi (c : Cemi) : Type 0 where
  pub information : IsShort c.additional_information
  pub hops : c.control.hop_count < 8
  pub source : IsIndividual c.source
  pub destination : IsDestination c.control.destination_address_is_group c.destination
  pub npdu : IsNpdu c.npdu

-- What the receiver of a frame sees.
abbrev pub received_cemi : Cemi → Cemi
received_cemi c = record c { npdu = received c.npdu }

abbrev address_bytes : Destination → List ℕ
address_bytes (individual a) = individual_bytes a
address_bytes (group a) = group_bytes a

write_address-Appends :
    (b : Bool) (d : Destination) → IsDestination b d → Appends (write_address d) (address_bytes d)
unfolding write_address
write_address-Appends b (individual a) v = Individual.write-Appends a v.1
write_address-Appends b (group a) v = Group.to_bytes-Appends a v.1

parse_address-Reads :
    (c : Control) (d : Destination)
    → IsDestination c.destination_address_is_group d
    → Reads (parse_address c) (address_bytes d) d
unfolding parse_address
parse_address-Reads c (individual a) v =
    rw (v.0) (Reads-bind _ (Individual.parse-Reads a v.1) (Reads-pure _))
parse_address-Reads c (group a) v = rw (v.0) (Reads-bind _ (Group.parse-Reads a v.1) (Reads-pure _))

-- The bytes of a frame in front of its last part.
abbrev front : Cemi → List ℕ
front c =
    c.message_code
    ∷ (information_bytes c.additional_information
        ++ (first_byte c.control
            ∷ second_byte c.control
            ∷ (individual_bytes c.source ++ address_bytes c.destination)))

abbrev pub cemi_bytes : (c : Cemi) → IsCemi c → List ℕ
cemi_bytes c v = front c ++ (Npdu.write-Wire c.npdu v.npdu).0

pub write-Appends : (c : Cemi) (v : IsCemi c) → Appends (write c) (cemi_bytes c v)
unfolding write
write-Appends c v =
    Appends-as
      (Appends-then
        (Appends-then
          (Appends-then
            (Appends-then
              (Appends-then (Appends-uint8 c.message_code)
                (Information.write-Appends c.additional_information v.information))
              (ControlBytes.write-Appends c.control))
            (Individual.write-Appends c.source v.source))
          (write_address-Appends _ c.destination v.destination))
        (Npdu.write-Wire c.npdu v.npdu).1)
      (simp append_assoc)

pub parse-Reads : (c : Cemi) (v : IsCemi c) → Reads parse (cemi_bytes c v) (received_cemi c)
unfolding parse
parse-Reads c v =
    Reads-as
      (Reads-bind _ (Reads-uint8 c.message_code) (
        Reads-bind _ (Information.parse-Reads c.additional_information v.information) (
          Reads-bind _ (ControlBytes.parse-Reads c.control v.hops) (
            Reads-bind _ (Individual.parse-Reads c.source v.source) (
              Reads-bind _ (parse_address-Reads c.control c.destination v.destination)
                (Reads-last _ (Npdu.write-Wire c.npdu v.npdu).2 (Reads-pure _)))))))
      (simp append_assoc)

-- A frame within its widths is read back as it was written, but for what its last part loses.
pub parse-write_cemi : (c : Cemi) → IsCemi c → RoundTrips (write c) parse (received_cemi c)
parse-write_cemi c v = RoundTrips-wire (cemi_bytes c v) (write-Appends c v) (parse-Reads c v)
