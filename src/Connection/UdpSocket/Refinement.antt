-- ===== src/Connection/UdpSocket/Refinement.antt =====
-- The socket as its owner knows it: a port and a flag (`UdpSocket`), which the whole socket refines as
-- long as no start throws and no read fails.
use libknx.Prelude.{
  arith, ℕ, suc, ◌+◌, ◌≡◌, refl, ap, sym, ◌∙◌, List, [], ◌∷◌, ◌++◌, Bool, Bool-cases, inl, inr,
  true, false, ◌&&◌, ltb, length,
}
use libknx.Connection.UdpSocket
use libknx.Connection.UdpSocket.{UdpSocket}
use libknx.Connection.UdpSocket.Reading.{
  AsioSocket, ReadingSocket, aborted, failed, received, Call, handler, on_socket_closed, Socket,
  prepared, reading, start, stop, handled, read_incoming, Input, call_start, call_start_multicast,
  call_stop, call_set_handler, call_set_connection_closed_handler, completed, step, run,
}
use libknx.Connection.UdpSocket.Asio.{IsAsio, reading-lem, prepared-succeeded}

abbrev pub closings : List Call → ℕ
closings [] = 0
closings (on_socket_closed ∷ calls) = suc (closings calls)
closings (handler bytes ∷ calls) = closings calls

-- What the owner's flag does, and how often it hears that the socket is closed.
abbrev told : UdpSocket × Bool → UdpSocket × ℕ
told (u, true) = (u, 1)
told (u, false) = (u, 0)

unfoldable pub owner_step : Input → UdpSocket → UdpSocket × ℕ
owner_step call_start u = (UdpSocket.start u, 0)
owner_step (call_stop reset_handler) u = told (UdpSocket.stop u)
owner_step i u = (u, 0)

abbrev plus : ℕ → UdpSocket × ℕ → UdpSocket × ℕ
plus n (u, m) = (u, n + m)

unfoldable pub owner_run : List Input → UdpSocket → UdpSocket × ℕ
owner_run [] u = (u, 0)
owner_run (i ∷ is) u = let (v, n) = owner_step i u in plus n (owner_run is v)

abbrev pub view : {A : Type 0} → ReadingSocket A → UdpSocket
view s = record { port = s.port; is_open = s.is_open }

module _ (asio : AsioSocket) where
  -- An input of a socket whose handler for a closed socket stays, whose starts do not throw, and
  -- whose reads do not fail.
  abbrev pub Calm : Input → Socket asio → Type 0
  Calm call_start s = (start asio s).1 ≡ true
  Calm (call_start_multicast address) s = ⊥
  Calm (call_set_connection_closed_handler is_set) s = ⊥
  Calm (completed failed) s = ⊥
  Calm i s = Unit

  abbrev pub AllCalm : List Input → Socket asio → Type 0
  AllCalm [] s = Unit
  AllCalm (i ∷ is) s = Calm i s × AllCalm is ((step asio i s).0)

module _ (asio : AsioSocket) (laws : IsAsio asio) where
  -- The two flags agree, and the owner listens.
  abbrev pub Agrees : Socket asio → Type 0
  Agrees s = (laws.is_open s.socket ≡ s.is_open) × (s.has_closed_handler ≡ true)

  -- A result that the owner sees as `r`.
  abbrev Seen : Socket asio × List Call → UdpSocket × ℕ → Type 0
  Seen (t, calls) (u, n) = Agrees t × (view t ≡ u) × (closings calls ≡ n)

  -- An attempt that succeeds.
  succeeded-Seen :
      (s : Socket asio) (x : asio.State × Bool)
      → x.1 ≡ true
      → laws.is_open (x.0) ≡ true
      → s.has_closed_handler ≡ true
      → Seen ((reading asio s x).0, []) (record { port = s.port; is_open = true }, 0)
  succeeded-Seen s (a, true) h o l = ((o, l), refl, refl)
  succeeded-Seen s (a, false) h o l = cc

  start-Seen :
      (is_open : Bool) (s : Socket asio)
      → (start asio (record s { is_open = is_open })).1 ≡ true
      → Agrees (record s { is_open = is_open })
      → Seen
          ((start asio (record s { is_open = is_open })).0, [])
          (UdpSocket.start (record { port = s.port; is_open = is_open }), 0)
  unfolding start UdpSocket.start
  start-Seen true s h g = (g, refl, refl)
  start-Seen false s h g =
      let x = prepared asio s.port s.socket in
      let done : x.1 ≡ true =
        sym ((reading-lem asio laws (record s { is_open = false }) x).0) ∙ h in
      succeeded-Seen (record s { is_open = false }) x done
        (prepared-succeeded asio laws s.port s.socket (g.0) done) (g.1)

  stop-Seen :
      (reset_handler is_open : Bool) (s : Socket asio)
      → Agrees (record s { is_open = is_open })
      → Seen
          (stop asio reset_handler (record s { is_open = is_open }))
          (told (UdpSocket.stop (record { port = s.port; is_open = is_open })))
  unfolding stop UdpSocket.stop
  stop-Seen reset_handler true s g = rw (g.1) ((laws.released s.socket, refl), refl, refl)
  stop-Seen reset_handler false s g = (g, refl, refl)

  handled-closings : (is_set : Bool) (bytes : List ℕ) → closings (handled asio is_set bytes) ≡ 0
  handled-closings is_set bytes = elim (Bool-cases (ltb 0 (length bytes) && is_set)) [
    | inl y ↦ rw y
    | inr n ↦ rw n
  ]

  step-Seen :
      (i : Input) (s : Socket asio)
      → Calm asio i s
      → Agrees s
      → Seen (step asio i s) (owner_step i (view s))
  unfolding step owner_step read_incoming
  step-Seen call_start s c g = start-Seen s.is_open s c g
  step-Seen (call_start_multicast address) s c g = elim c [ ]
  step-Seen (call_stop reset_handler) s c g = stop-Seen reset_handler s.is_open s g
  step-Seen (call_set_handler is_set) s c g = (g, refl, refl)
  step-Seen (call_set_connection_closed_handler is_set) s c g = elim c [ ]
  step-Seen (completed aborted) s c g = (g, refl, refl)
  step-Seen (completed failed) s c g = elim c [ ]
  step-Seen (completed (received bytes)) s c g = (g, refl, handled-closings s.has_handler bytes)

  closings-append :
      (calls more : List Call) → closings (calls ++ more) ≡ closings calls + closings more
  closings-append [] more = omega arith
  closings-append (on_socket_closed ∷ calls) more = omega (arith, closings-append calls more)
  closings-append (handler bytes ∷ calls) more = closings-append calls more

  -- As long as no start throws, no read fails, and the owner keeps its handler for a closed socket, whatever is
  -- called and whatever completes: the port and the flag do what they do in the socket of a port
  -- and a flag, the owner is told that its socket is closed just as often, and the flag says
  -- whether asio's socket is open. Multicast is left out.
  pub run-Seen :
      (is : List Input) (s : Socket asio)
      → AllCalm asio is s
      → Agrees s
      → Agrees ((run asio is s).0)
        × (view ((run asio is s).0) ≡ (owner_run is (view s)).0)
        × (closings ((run asio is s).1) ≡ (owner_run is (view s)).1)
  unfolding run owner_run
  run-Seen [] s c g = (g, refl, refl)
  run-Seen (i ∷ is) s (c, cs) g =
      let (h, seen, count) = step-Seen i s c g in
      let (k, seen_rest, count_rest) = run-Seen is ((step asio i s).0) cs h in
      (
        k,
        seen_rest ∙ ap (λ u. (owner_run is u).0) seen,
        closings-append ((step asio i s).1) _
            ∙ ap (λ n. n + closings ((run asio is ((step asio i s).0)).1)) count
            ∙ ap (λ n. (owner_step i (view s)).1 + n)
                (count_rest ∙ ap (λ u. (owner_run is u).1) seen),
      )
