-- ===== src/Connection/Discovery/Scanning/Laws.antt =====
-- What a search finds, how it ends when its time is over, and what follows when it is cancelled.
use libknx.Prelude.{
  ℕ, ◌-◌, ◌≡◌, refl, sym, ap, ◌∙◌, List, [], ◌∷◌, ◌++◌, append-nil, append_assoc, Bool, Bool-cases,
  inl, inr, true, if◌then◌else◌, ◌==◌, ◌≤◌, arith,
}
use libknx.Bytes.Parser.{Endian, Result, ok, err, ByteBufferReader}
use libknx.Connection.Outcome.{Outcome, done, failed, use_after_free, ◌>>=◌}
use libknx.Connection.UdpSocket.Reading.{
  AsioSocket, received, handler, handled, finished, read_incoming,
}
use libknx.Message.IpHeader
use libknx.Message.IpHeader.{KnxIpHeader}
use libknx.Message.Response
use libknx.Message.Response.{SearchResponse, parse_search}
use libknx.Connection.Discovery
use libknx.Connection.Discovery.{
  KnxIp, Search, multicast_address, push_back, do_receive, to_knx_ip, on_header,
}
use libknx.Connection.Discovery.Scanning.{
  Scanning, called_back, on_data, on_calls, with_calls, complete, arrive,
}

-- A datagram that is no search response is passed over; after one that is malformed nothing is heard.
abbrev pub device : Result (SearchResponse × ByteBufferReader) → List KnxIp → List KnxIp
device (ok (r, _)) found = to_knx_ip r ∷ found
device (err f) found = []

abbrev pub device_behind :
    Endian → Result (KnxIpHeader × ByteBufferReader) → List KnxIp → List KnxIp
device_behind native (ok (header, reader)) found =
    if header.service_type == Response.search_id
    then device (parse_search native reader) found
    else found
device_behind native (err f) found = []

unfoldable pub devices : Endian → List (List ℕ) → List KnxIp
devices native [] = []
devices native (bytes ∷ rest) =
    device_behind native (IpHeader.parse native (record { bytes = bytes; index = 0 }))
      (devices native rest)

-- The datagrams have bytes.
abbrev pub NonEmpty : List (List ℕ) → Type 0
NonEmpty [] = Unit
NonEmpty ([] ∷ rest) = ⊥
NonEmpty ((b ∷ bytes) ∷ rest) = NonEmpty rest

module _ (asio : AsioSocket) (native : Endian) (max_results : ℕ) where
  -- One coroutine reads for the search, or none any more.
  abbrev pub IsHearing : ℕ → Scanning asio.State → Type 0
  IsHearing n s = (s.is_scanning ≡ true) × (s.socket.has_handler ≡ true) × (s.socket.waiting ≡ n)

  -- A run that ends in a search with what was found before and these.
  abbrev pub Finds : Scanning asio.State → List KnxIp → Outcome (Scanning asio.State) → Type 0
  Finds s found o =
      (t : Scanning asio.State) × (n : ℕ) × (o ≡ done t)
      × IsHearing n t
      × (n ≤ 1)
      × (t.search.found ≡ s.search.found ++ found)
      × (t.written ≡ s.written)
      × (t.socket.is_open ≡ s.socket.is_open)

  -- Nothing more is heard.
  arrive-deaf :
      (ds : List (List ℕ)) (s : Scanning asio.State)
      → s.socket.waiting ≡ 0
      → arrive asio native max_results ds s ≡ done s
  unfolding arrive complete
  arrive-deaf [] s h = refl
  arrive-deaf (d ∷ ds) s h =
      ap
        (λ x.
          (if x == 0
            then done s
            else with_calls asio native max_results s (read_incoming asio (received d) s.socket))
          >>= λ t. arrive asio native max_results ds t)
        h
      ∙ arrive-deaf ds s h

  pub then_done : (o : Outcome (Scanning asio.State)) → (o >>= λ t. done t) ≡ o
  then_done (done t) = refl
  then_done (failed e) = refl

  pub handled-all :
      (is_set : Bool) (b : ℕ) (bytes : List ℕ)
      → is_set ≡ true
      → handled asio is_set (b ∷ bytes) ≡ (handler (b ∷ bytes) ∷ [])
  handled-all is_set b bytes h = ground arith

  pub complete-heard :
      (b : ℕ) (bytes : List ℕ) (s : Scanning asio.State)
      → IsHearing 1 s
      → complete asio native max_results (received (b ∷ bytes)) s
        ≡ called_back asio s (do_receive native (b ∷ bytes) (push_back max_results) s.search)
  unfolding complete read_incoming
  complete-heard b bytes s (scanning, set, one) =
      ap
        (λ x.
          if x == 0
          then done s
          else on_calls asio native max_results (handled asio s.socket.has_handler (b ∷ bytes)) s)
        one
      ∙ ap (λ x. on_calls asio native max_results x s)
          (handled-all s.socket.has_handler b bytes set)
      ∙ then_done (on_data asio native max_results (b ∷ bytes) s)
      ∙ ap
          (λ x.
            if x
            then called_back asio s (do_receive native (b ∷ bytes) (push_back max_results) s.search)
            else failed use_after_free)
          scanning

  -- What a datagram adds, before the others.
  Finds-behind :
      (s t : Scanning asio.State) (d : KnxIp) (found : List KnxIp)
      (o : Outcome (Scanning asio.State))
      → t.search.found ≡ s.search.found ++ d ∷ []
      → t.written ≡ s.written
      → t.socket.is_open ≡ s.socket.is_open
      → Finds t found o
      → Finds s (d ∷ found) o
  Finds-behind s t d found o e k l (u, n, same, hearing, small, have, sent, flag) = (
    u,
    n,
    same,
    hearing,
    small,
    have ∙ ap (λ x. x ++ found) e ∙ append_assoc s.search.found (d ∷ []) found,
    sent ∙ k,
    flag ∙ l,
  )

  module _ (ds : List (List ℕ))
      (later : (s : Scanning asio.State)
        → IsHearing 1 s
        → Finds s (devices native ds) (arrive asio native max_results ds s)) where
    abbrev then_arrive : Outcome (Scanning asio.State) → Outcome (Scanning asio.State)
    then_arrive o = o >>= λ t. arrive asio native max_results ds t

    malformed-Finds :
        (s : Scanning asio.State)
        → IsHearing 1 s
        → Finds s []
            (arrive asio native max_results ds (record s { socket = finished asio s.socket }))
    malformed-Finds s (scanning, set, one) = (
      record s { socket = finished asio s.socket },
      0,
      arrive-deaf ds _ (ap (λ n. n - 1) one),
      (scanning, set, ap (λ n. n - 1) one),
      omega arith,
      sym (append-nil s.search.found),
      refl,
      refl,
    )

    response-Finds :
        (r : Result (SearchResponse × ByteBufferReader)) (s : Scanning asio.State)
        → IsHearing 1 s
        → Finds s (device r (devices native ds)) (
            then_arrive
              (called_back asio s (Discovery.received (push_back max_results) s.search r)))
    unfolding push_back
    response-Finds (ok (r, reader)) s h =
        Finds-behind s (record s { search = push_back max_results (to_knx_ip r) s.search })
          (to_knx_ip r) (devices native ds) _ refl refl refl (later _ h)
    response-Finds (err f) s h = malformed-Finds s h

    header-Finds :
        (r : Result (KnxIpHeader × ByteBufferReader)) (s : Scanning asio.State)
        → IsHearing 1 s
        → Finds s
            (device_behind native r (devices native ds))
            (then_arrive (called_back asio s (on_header native (push_back max_results) s.search r)))
    header-Finds (ok (header, reader)) s h =
        elim (Bool-cases (header.service_type == Response.search_id)) [
          | inl y ↦ rw y (response-Finds (parse_search native reader) s h)
          | inr n ↦ rw n (later s h)
        ]
    header-Finds (err f) s h = malformed-Finds s h

    datagram-Finds :
        (b : ℕ) (bytes : List ℕ) (s : Scanning asio.State)
        → IsHearing 1 s
        → Finds s
            (devices native ((b ∷ bytes) ∷ ds))
            (arrive asio native max_results ((b ∷ bytes) ∷ ds) s)
    unfolding arrive devices do_receive
    datagram-Finds b bytes s h =
        rw (complete-heard b bytes s h)
          (header-Finds (IpHeader.parse native (record { bytes = b ∷ bytes; index = 0 })) s h)

  pub arrive-Finds :
      (ds : List (List ℕ)) (s : Scanning asio.State)
      → NonEmpty ds
      → IsHearing 1 s
      → Finds s (devices native ds) (arrive asio native max_results ds s)
  unfolding devices arrive
  arrive-Finds [] s k h = (s, 1, refl, h, omega arith, sym (append-nil s.search.found), refl, refl)
  arrive-Finds ([] ∷ ds) s k h = elim k [ ]
  arrive-Finds ((b ∷ bytes) ∷ ds) s k h =
      datagram-Finds ds (λ t g. arrive-Finds ds t k g) b bytes s h
