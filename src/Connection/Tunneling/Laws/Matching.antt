-- ===== src/Connection/Tunneling/Laws/Matching.antt =====
-- Which item a response of the router reaches.
use libknx.Prelude.{
  ℕ, ◌≡◌, ◌⊎◌, inl, inr, refl, ap, List, [], ◌∷◌, ◌++◌, true, false, All, Bool-cases,
}
use libknx.Bytes.Parser.{Endian}
use libknx.Message.Request.{matches_response}
use libknx.Message.Response.{ResponseVariant, TunnelAckResponse, tunnel_ack, tunnel_ack_to_bytes}
use libknx.Connection.AsyncMessage
use libknx.Connection.AsyncMessage.{set_response}
use libknx.Connection.Outcome.{done}
use libknx.Connection.Tunneling.State.{Item, Connection}
use libknx.Connection.Tunneling.Receive.{deliver, on_receive_data}
use libknx.Connection.Tunneling.Laws.Receive.{on_receive_data-tunnel_ack}

-- Either no item matches the response and all stay as they are, or the first that matches gets it
-- and the others stay as they are.
abbrev pub FirstMatch : ResponseVariant → List Item → List Item → Type 0
FirstMatch r items items' =
    (before : List Item) × (i : Item) × (after : List Item) × (items ≡ before ++ i ∷ after)
    × All (λ j. matches_response j.request r ≡ false) before
    × (matches_response i.request r ≡ true)
    × (items'
        ≡ before ++ record i { message = AsyncMessage.step i.message (set_response r) } ∷ after)

deliver_lem :
    (r : ResponseVariant) (items : List Item)
    → ((deliver r items ≡ items) × All (λ j. matches_response j.request r ≡ false) items)
      ⊎ FirstMatch r items (deliver r items)
unfolding deliver
deliver_lem r [] = inl (refl, tt)
deliver_lem r (i ∷ is) = elim (Bool-cases (matches_response i.request r)) [
  | inl y ↦ inr ([], i, is, refl, tt, y, rw y refl)
  | inr n ↦ elim (deliver_lem r is) [
    | inl h ↦ inl (rw n (ap (λ l. i ∷ l) h.0), (n, h.1))
    | inr m ↦
        inr (i ∷ m.0, m.1, m.2, ap (λ l. i ∷ l) m.3, (n, m.4), m.5, rw n (ap (λ l. i ∷ l) m.6))
  ]
]

-- A tunnel acknowledgement reaches the first item whose request it matches, and nothing else
-- changes; if it matches none, nothing changes at all.
pub tunnel_ack-FirstMatch :
    (native : Endian) (a : TunnelAckResponse) (rest : List ℕ) (c : Connection)
    → (items : List Item) × (on_receive_data native (tunnel_ack_to_bytes native a ++ rest) c
        ≡ done (record c { send_items = items }))
      × (((items ≡ c.send_items)
            × All (λ j. matches_response j.request (tunnel_ack a) ≡ false) c.send_items)
          ⊎ FirstMatch (tunnel_ack a) c.send_items items)
tunnel_ack-FirstMatch native a rest c = (
  deliver (tunnel_ack a) c.send_items,
  on_receive_data-tunnel_ack native a rest c,
  deliver_lem (tunnel_ack a) c.send_items,
)
