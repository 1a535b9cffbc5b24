-- ===== src/Connection/UdpSocket/Laws.antt =====
-- What the owner of a socket sees of it, and what a failed read leaves behind.
use libknx.Prelude.{
  ℕ, ◌-◌, ◌≡◌, refl, ap, sym, ◌∙◌, List, [], ◌∷◌, ◌++◌, Bool, Bool-cases, inl, inr, true, false,
  ◌&&◌, if◌then◌else◌, ltb, length,
}
use libknx.Headers.IpAddress.{IpAddress}
use libknx.Connection.UdpSocket.Reading.{
  AsioSocket, Completion, aborted, failed, received, Call, handler, on_socket_closed, Socket,
  then_call, prepared, reading, start, start_multicast, stop, handled, read_incoming, Input,
  call_start, call_start_multicast, call_stop, call_set_handler, call_set_connection_closed_handler,
  completed, step, run,
}
use libknx.Connection.UdpSocket.Asio.{IsAsio, prepared-open, reading-lem, reading-thrown}

-- Whether the owner hears that its socket is closed.
abbrev pub is_told : List Call → Bool
is_told [] = false
is_told (on_socket_closed ∷ calls) = true
is_told (handler bytes ∷ calls) = is_told calls

module _ (asio : AsioSocket) (laws : IsAsio asio) where
  -- The flag of the library is not set, and asio's socket `a` is open.
  abbrev Broken : asio.State → Socket asio → Type 0
  Broken a s = (s.is_open ≡ false) × (s.socket ≡ a)

  prepared-refused :
      (port : ℕ) (a b : asio.State)
      → laws.is_open a ≡ true
      → b ≡ a
      → prepared asio port b ≡ (a, false)
  prepared-refused port a b o e =
      ap (λ x. prepared asio port x) e
      ∙ ap (λ x. then_call asio (asio.bind port) (then_call asio asio.reuse_address x))
          (laws.already_open a o)

  start-Broken :
      (a : asio.State) (s : Socket asio)
      → laws.is_open a ≡ true
      → Broken a s
      → start asio s ≡ (record s { socket = a }, false)
  unfolding start
  start-Broken a s o (closed, same) =
      ap (λ x. if x then (s, true) else reading asio s (prepared asio s.port s.socket)) closed
      ∙ ap (λ x. reading asio s x) (prepared-refused s.port a s.socket o same)

  multicast-Broken :
      (address : IpAddress) (a : asio.State) (s : Socket asio)
      → laws.is_open a ≡ true
      → Broken a s
      → start_multicast asio address s ≡ (record s { socket = a }, false)
  unfolding start_multicast
  multicast-Broken address a s o (closed, same) =
      ap (λ x. reading asio s (then_call asio (asio.join_group address) x))
        (prepared-refused s.port a s.socket o same)

  stop-closed :
      (reset_handler : Bool) (s : Socket asio)
      → s.is_open ≡ false
      → stop asio reset_handler s ≡ (s, [])
  unfolding stop
  stop-closed reset_handler s closed = rw closed

  handled-told : (is_set : Bool) (bytes : List ℕ) → is_told (handled asio is_set bytes) ≡ false
  handled-told is_set bytes = elim (Bool-cases (ltb 0 (length bytes) && is_set)) [
    | inl y ↦ rw y
    | inr n ↦ rw n
  ]

  read-Broken :
      (c : Completion) (a : asio.State) (s : Socket asio)
      → Broken a s
      → Broken a ((read_incoming asio c s).0) × (is_told ((read_incoming asio c s).1) ≡ false)
  unfolding read_incoming
  read-Broken aborted a s b = (b, refl)
  read-Broken failed a s (closed, same) = ((refl, same), refl)
  read-Broken (received bytes) a s b = (b, handled-told s.has_handler bytes)

  step-Broken :
      (i : Input) (a : asio.State) (s : Socket asio)
      → laws.is_open a ≡ true
      → Broken a s
      → Broken a ((step asio i s).0) × (is_told ((step asio i s).1) ≡ false)
  unfolding step
  step-Broken call_start a s o b = (rw (start-Broken a s o b) (b.0, refl), refl)
  step-Broken (call_start_multicast address) a s o b =
      (rw (multicast-Broken address a s o b) (b.0, refl), refl)
  step-Broken (call_stop reset_handler) a s o b = rw (stop-closed reset_handler s (b.0)) (b, refl)
  step-Broken (call_set_handler is_set) a s o b = (b, refl)
  step-Broken (call_set_connection_closed_handler is_set) a s o b = (b, refl)
  step-Broken (completed c) a s o b = read-Broken c a s b

  is_told-append :
      (calls more : List Call)
      → is_told calls ≡ false
      → is_told more ≡ false
      → is_told (calls ++ more) ≡ false
  is_told-append [] more h k = k
  is_told-append (on_socket_closed ∷ calls) more h k = h
  is_told-append (handler bytes ∷ calls) more h k = is_told-append calls more h k

  run-Broken :
      (is : List Input) (a : asio.State) (s : Socket asio)
      → laws.is_open a ≡ true
      → Broken a s
      → Broken a ((run asio is s).0) × (is_told ((run asio is s).1) ≡ false)
  unfolding run
  run-Broken [] a s o b = (b, refl)
  run-Broken (i ∷ is) a s o b =
      let (c, quiet) = step-Broken i a s o b in
      let (d, rest) = run-Broken is a ((step asio i s).0) o c in
      (d, is_told-append ((step asio i s).1) _ quiet rest)

  -- After a read of an open asio socket has failed, whatever is called and whatever completes:
  -- the flag stays false, asio's socket stays open and as it was, the owner is never told that
  -- its socket is closed, and start throws.
  pub failed-run :
      (is : List Input) (s : Socket asio)
      → laws.is_open s.socket ≡ true
      → (((run asio (completed failed ∷ is) s).0).is_open ≡ false)
        × (((run asio (completed failed ∷ is) s).0).socket ≡ s.socket)
        × (is_told ((run asio (completed failed ∷ is) s).1) ≡ false)
        × ((start asio ((run asio (completed failed ∷ is) s).0)).1 ≡ false)
  unfolding run step read_incoming
  failed-run is s o =
      let (b, quiet) =
        run-Broken is s.socket (record s { is_open = false; waiting = s.waiting - 1 }) o
          (refl, refl) in
      (b.0, b.1, quiet, ap (λ x. x.1) (start-Broken s.socket _ o b))

  -- A start that throws behind the opening of asio's socket, as where the port is not free, leaves
  -- that socket open. Then, whatever is called and whatever completes, the flag stays false, asio's
  -- socket stays open, the owner is never told that its socket is closed, and start throws again.
  pub thrown-run :
      (is : List Input) (s : Socket asio)
      → s.is_open ≡ false
      → laws.is_open s.socket ≡ false
      → (asio.open_protocol s.socket).1 ≡ true
      → (start asio s).1 ≡ false
      → (((run asio (call_start ∷ is) s).0).is_open ≡ false)
        × (laws.is_open (((run asio (call_start ∷ is) s).0).socket) ≡ true)
        × (is_told ((run asio (call_start ∷ is) s).1) ≡ false)
        × ((start asio ((run asio (call_start ∷ is) s).0)).1 ≡ false)
  unfolding run step start
  thrown-run is s closed asio_closed opens thrown =
      let x = prepared asio s.port s.socket in
      let tried : start asio s ≡ reading asio s x =
        ap (λ b. if b then (s, true) else reading asio s x) closed in
      let t = (start asio s).0 in
      let flag : t.is_open ≡ false =
        ap (λ r. r.0.is_open) tried
        ∙ reading-thrown asio laws s x (ap (λ r. r.1) (sym tried) ∙ thrown)
        ∙ closed in
      let still : laws.is_open t.socket ≡ true =
        ap (λ r. laws.is_open (r.0.socket)) tried
        ∙ ap (λ a. laws.is_open a) ((reading-lem asio laws s x).1)
        ∙ prepared-open asio laws s.port s.socket asio_closed opens in
      let (b, quiet) = run-Broken is t.socket t still (flag, refl) in
      (
        b.0,
        ap (λ a. laws.is_open a) (b.1) ∙ still,
        quiet,
        ap (λ r. r.1) (start-Broken t.socket _ still b),
      )
