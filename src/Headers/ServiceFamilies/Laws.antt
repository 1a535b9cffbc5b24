-- ===== src/Headers/ServiceFamilies/Laws.antt =====
-- What `parse` reads of the families that `write` has written.
use libknx.Prelude.{
  ℕ, suc, ◌+◌, ◌-◌, ◌*◌, ◌/◌, ◌%◌, ◌<◌, ◌≡◌, refl, ap, ◌∙◌, List, [], ◌∷◌, ◌++◌, arith, length,
  length-append, append_assoc, append-nil,
}
use libknx.Bytes.Parser.{Endian, ok}
use libknx.Bytes.Wire.{
  reader_after, Reads-partly, Reads, Appends, Reads-pure, Reads-return, Reads-bind, Reads-last,
  Reads-uint8, Appends-uint8, Appends-then,
}
use libknx.Headers.KnxStructure
use libknx.Headers.KnxStructure.{length_bytes}
use libknx.Headers.ServiceFamilies.{
  ServiceFamilyType, ServiceFamily, SupportedServiceFamiliesDib, to_number, to_enum, parse_families,
  write_families, parse, write,
}

-- The enumeration survives the cast to a number and back.
to_enum-to_number : (t : ServiceFamilyType) → to_enum (to_number t) ≡ t
unfolding to_enum to_number
to_enum-to_number ServiceFamilyType.knx_ip_core = refl
to_enum-to_number _ = refl

abbrev pub family_bytes : List ServiceFamily → List ℕ
family_bytes [] = []
family_bytes (f ∷ fs) = to_number f.type ∷ f.version ∷ family_bytes fs

parse_families-Reads :
    (fs : List ServiceFamily) → Reads (parse_families (length fs)) (family_bytes fs) fs
unfolding parse_families
parse_families-Reads [] = Reads-pure []
parse_families-Reads (f ∷ fs) = Reads-bind _ (Reads-uint8 (to_number f.type)) (
    Reads-bind _ (Reads-uint8 f.version)
      (Reads-last _ (parse_families-Reads fs) (Reads-return (rw to_enum-to_number))))

length-family_bytes : (fs : List ServiceFamily) → length (family_bytes fs) ≡ length fs * 2
length-family_bytes [] = refl
length-family_bytes (f ∷ fs) = omega (arith, length-family_bytes fs)

family_bytes-append :
    (fs gs : List ServiceFamily) → family_bytes (fs ++ gs) ≡ family_bytes fs ++ family_bytes gs
family_bytes-append [] gs = refl
family_bytes-append (f ∷ fs) gs = rw (family_bytes-append fs gs)

write_families-Appends : (fs : List ServiceFamily) → Appends (write_families fs) (family_bytes fs)
unfolding write_families
write_families-Appends [] = record { run = λ out. rw append-nil }
write_families-Appends (f ∷ fs) =
    Appends-then (Appends-then (Appends-uint8 (to_number f.type)) (Appends-uint8 f.version))
      (write_families-Appends fs)

abbrev of_families : List ServiceFamily → SupportedServiceFamiliesDib
of_families fs = record { service_families = fs }

module _ (native : Endian) where
  -- The structure's beginning, for a block of `n` families.
  abbrev start : ℕ → List ℕ
  start n = length_bytes native (n * 2 + 2) ++ 0x02 ∷ []

  write-Appends :
      (fs : List ServiceFamily)
      → length fs < 32767
      → Appends (write native (of_families fs)) (start (length fs) ++ family_bytes fs)
  unfolding write
  write-Appends fs h =
      let exact : (length fs * 2 + 2) % 65536 ≡ length fs * 2 + 2 = omega arith in
      rw exact (
        Appends-then
          (KnxStructure.write_knx_structure-Appends native 0x02 (length fs * 2 + 2) (omega arith))
          (write_families-Appends fs))

  -- One family fewer is read than the length announces.
  parse-Reads :
      (fs : List ServiceFamily)
      → length fs < 32766
      → Reads (parse native) (start (suc (length fs)) ++ family_bytes fs) (of_families fs)
  unfolding parse
  parse-Reads fs h =
      let count : ((suc (length fs) * 2 + 2 + 65536 - 2) % 65536 - 1) / 2 ≡ length fs =
        omega arith in
      Reads-bind _ (KnxStructure.parse-Reads native 0x02 (suc (length fs) * 2 + 2) (omega arith))
        (rw count (Reads-last _ (parse_families-Reads fs) (Reads-pure _)))

  write-append :
      (fs : List ServiceFamily) (f : ServiceFamily) (out : List ℕ)
      → length fs < 32766
      → write native (of_families (fs ++ f ∷ [])) out
        ≡ out ++ ((start (suc (length fs)) ++ family_bytes fs) ++ family_bytes (f ∷ []))
  write-append fs f out h =
      let count : length (fs ++ f ∷ []) ≡ suc (length fs) =
        omega (arith, length-append fs (f ∷ [])) in
      (write-Appends (fs ++ f ∷ []) (omega arith)).run out
      ∙ (ap (λ k. out ++ (start k ++ family_bytes (fs ++ f ∷ []))) count
          ∙ simp (family_bytes-append, append_assoc))

  -- Reading a written block back gives every family but the last, and leaves the reader two bytes
  -- before its end.
  pub parse-write_drops_last :
      (fs : List ServiceFamily) (f : ServiceFamily)
      → length fs < 32766
      → (out rest : List ℕ)
      → let written = write native (of_families (fs ++ f ∷ [])) out in
        parse native (reader_after out (written ++ rest))
        ≡ ok (of_families fs, record { bytes = written ++ rest; index = length written - 2 })
  parse-write_drops_last fs f h out rest =
      rw (write-append fs f out h)
        (Reads-partly (parse-Reads fs h) out (family_bytes (f ∷ [])) rest)
