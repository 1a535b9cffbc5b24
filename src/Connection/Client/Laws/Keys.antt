-- ===== src/Connection/Client/Laws/Keys.antt =====
-- The keys of the requests that wait for a confirmation.
use libknx.Prelude.{ℕ, ◌+◌, ◌*◌, ◌^◌, ◌<◌, ◌≡◌, refl, sym, ◌∙◌, arith, IsByte, bit_or, ◌<<<◌, u32}
use libknx.Prelude.Bits.{bit_or-above}
use libknx.Headers.KnxAddress.{GroupAddress}
use libknx.Cemi.CemiFrame.{Cemi}
use libknx.Connection.Client.State.{to_map_key}

abbrev pub InBytes : GroupAddress → Type 0
InBytes a = IsByte a.high × IsByte a.middle × IsByte a.low

key_of :
    (type high middle low : ℕ)
    → IsByte type
    → IsByte high
    → IsByte middle
    → IsByte low
    → u32 (bit_or (bit_or (bit_or type (high <<< 8)) (middle <<< 16)) (low <<< 24))
      ≡ type + high * 256 + middle * 65536 + low * 16777216
key_of t h m l a b c d = rw (bit_or-above 8 h t (omega (arith, a))) (
    rw (bit_or-above 16 m (t + h * 2 ^ 8) (omega (arith, a, b))) (
      rw (bit_or-above 24 l (t + h * 2 ^ 8 + m * 2 ^ 16) (omega (arith, a, b, c)))
        (omega (arith, a, b, c, d))))

-- The key of a frame to a group address holds the type of the frame and the three bytes of the
-- address, without overlap, and fits 32 bits.
pub to_map_key_lem :
    (cemi : Cemi) (a : GroupAddress)
    → IsByte cemi.npdu.data_acpi.type
    → InBytes a
    → (to_map_key cemi a
        ≡ cemi.npdu.data_acpi.type + a.high * 256 + a.middle * 65536 + a.low * 16777216)
      × (to_map_key cemi a < 2 ^ 32)
unfolding to_map_key
to_map_key_lem cemi a t h =
    let e = key_of cemi.npdu.data_acpi.type a.high a.middle a.low t (h.0) (h.1) (h.2) in
    (e, omega (arith, e, t, h.0, h.1, h.2))

-- Two frames have one key only when they have one type and go to one address.
pub to_map_key-injective :
    (cemi cemi' : Cemi) (a b : GroupAddress)
    → IsByte cemi.npdu.data_acpi.type
    → IsByte cemi'.npdu.data_acpi.type
    → InBytes a
    → InBytes b
    → to_map_key cemi a ≡ to_map_key cemi' b
    → (cemi.npdu.data_acpi.type ≡ cemi'.npdu.data_acpi.type) × (a ≡ b)
to_map_key-injective cemi cemi' a b t t' h k e =
    let f = sym ((to_map_key_lem cemi a t h).0) ∙ e ∙ (to_map_key_lem cemi' b t' k).0 in
    let high : a.high ≡ b.high = omega (arith, f, t, t', h, k) in
    let middle : a.middle ≡ b.middle = omega (arith, f, t, t', h, k) in
    let low : a.low ≡ b.low = omega (arith, f, t, t', h, k) in
    (omega (arith, f, t, t', h, k), rw (high, middle, low) refl)
