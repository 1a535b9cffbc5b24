-- ===== src/Connection/Client/Laws/Listeners.antt =====
-- Who is called, and with what.
use libknx.Prelude.{
  ℕ, ◌≡◌, refl, ap, ◌∙◌, List, [], ◌∷◌, ◌++◌, map, Bool, true, false, Option, some, none,
  Bool-cases, inl, inr, if◌then◌else◌, ◌==◌,
}
use libknx.Headers.KnxAddress.{GroupAddress}
use libknx.Cemi.DataAcpi.{group_value_read, group_value_response, group_value_write}
use libknx.Cemi.CemiFrame.{Cemi, group, l_data_ind}
use libknx.Connection.Outcome.{done, ◌>>=◌}
use libknx.Connection.Client.State.{
  Client, Call, on_group_read, on_group_read_response, on_group_write, get_group,
}
use libknx.Connection.Client.Listeners.{
  call_all, has_loose_listener, erase_expired, for_every_listener, update_listeners,
  check_for_update_listener, check_for_confirm, on_incoming_cemi,
}

-- The listeners that are alive, in order.
abbrev pub living : (ℕ → Bool) → List ℕ → List ℕ
living alive [] = []
living alive (l ∷ ls) = let rest = living alive ls in if alive l then l ∷ rest else rest

-- All of them are called.
abbrev pub all_told : (ℕ → Bool) → Call → Client → Client
all_told alive call c = record c {
  told =
      c.told
      ++ map (λ l. record { listener = l; call = call }) (living alive c.connection_listeners);
  connection_listeners = living alive c.connection_listeners;
}

call_all_lem :
    (alive : ℕ → Bool) (call : Call) (ls : List ℕ)
    → call_all alive (done call) ls
      ≡ done (map (λ l. record { listener = l; call = call }) (living alive ls))
unfolding call_all
call_all_lem alive call [] = refl
call_all_lem alive call (l ∷ ls) = elim (Bool-cases (alive l)) [
  | inl y ↦ rw (y, call_all_lem alive call ls) refl
  | inr n ↦ rw (n, call_all_lem alive call ls) refl
]

expired_lem : (alive : ℕ → Bool) (ls : List ℕ) → erase_expired alive ls ≡ living alive ls
unfolding erase_expired
expired_lem alive [] = refl
expired_lem alive (l ∷ ls) = rw (expired_lem alive ls) refl

unexpired_lem :
    (alive : ℕ → Bool) (ls : List ℕ) → has_loose_listener alive ls ≡ false → ls ≡ living alive ls
unfolding has_loose_listener
unexpired_lem alive [] h = refl
unexpired_lem alive (l ∷ ls) h = elim (Bool-cases (alive l)) [
  | inl y ↦ rw y (ap (λ t. l ∷ t) (unexpired_lem alive ls (rw y at h)))
  | inr n ↦ cc (rw n at h)
]

kept_lem :
    (alive : ℕ → Bool) (ls : List ℕ)
    → (if has_loose_listener alive ls then erase_expired alive ls else ls) ≡ living alive ls
kept_lem alive ls = elim (Bool-cases (has_loose_listener alive ls)) [
  | inl y ↦ rw y (expired_lem alive ls)
  | inr n ↦ rw n (unexpired_lem alive ls n)
]

pub for_every_listener_lem :
    (alive : ℕ → Bool) (call : Call) (c : Client)
    → for_every_listener alive (done call) c ≡ done (all_told alive call c)
unfolding for_every_listener
for_every_listener_lem alive call c =
    ap
      (λ o. o >>= (λ told. done (record c {
        told = c.told ++ told;
        connection_listeners =
            (if has_loose_listener alive c.connection_listeners
              then erase_expired alive c.connection_listeners
              else c.connection_listeners);
      })))
      (call_all_lem alive call c.connection_listeners)
    ∙ ap (λ ls. done (record (all_told alive call c) { connection_listeners = ls }))
        (kept_lem alive c.connection_listeners)

-- A frame that comes from the bus for a group.
abbrev pub indication : Cemi → GroupAddress → Cemi
indication cemi a = record cemi { message_code = l_data_ind; destination = group a }

-- The call that a frame for a group calls for: reads, responses and writes have one.
abbrev pub call_of : Cemi → GroupAddress → Option Call
call_of cemi a =
    let type = cemi.npdu.data_acpi.type in
    if type == group_value_read
    then some (on_group_read cemi.source a)
    else if type == group_value_response
    then some (on_group_read_response cemi.source a cemi.npdu.data_acpi.payload)
    else if type == group_value_write
    then some (on_group_write cemi.source a cemi.npdu.data_acpi.payload)
    else none

abbrev pub told_of : (ℕ → Bool) → Option Call → Client → Client
told_of alive none c = c
told_of alive (some call) c = all_told alive call c

switch_lem :
    (alive : ℕ → Bool) (c : Client) (b1 b2 b3 : Bool) (x1 x2 x3 : Call)
    → (if b1
        then for_every_listener alive (done x1) c
        else if b2
        then for_every_listener alive (done x2) c
        else if b3
        then for_every_listener alive (done x3) c
        else done c)
      ≡ done (
          told_of alive
            (if b1 then some x1 else if b2 then some x2 else if b3 then some x3 else none)
            c)
switch_lem alive c true b2 b3 x1 x2 x3 = for_every_listener_lem alive x1 c
switch_lem alive c false true b3 x1 x2 x3 = for_every_listener_lem alive x2 c
switch_lem alive c false false true x1 x2 x3 = for_every_listener_lem alive x3 c
switch_lem alive c false false false x1 x2 x3 = refl

-- A frame from the bus for a group: every listener that is alive gets the one call that its type
-- calls for, with the source, the address and the data, in the order of registration; the listeners
-- that have expired are dropped. A frame of another type is for nobody. No request is touched.
pub on_incoming_cemi-indication :
    (alive : ℕ → Bool) (cemi : Cemi) (a : GroupAddress) (c : Client)
    → on_incoming_cemi alive (indication cemi a) c ≡ done (told_of alive (call_of cemi a) c)
unfolding on_incoming_cemi check_for_update_listener update_listeners check_for_confirm get_group
on_incoming_cemi-indication alive cemi a c =
    let type = cemi.npdu.data_acpi.type in
    let payload = cemi.npdu.data_acpi.payload in
    ap (λ o. o >>= (λ d. check_for_confirm (indication cemi a) d))
      (switch_lem alive c (type == group_value_read) (type == group_value_response)
        (type == group_value_write) (on_group_read cemi.source a)
        (on_group_read_response cemi.source a payload) (on_group_write cemi.source a payload))
