-- ===== src/Connection/UdpSocket/Asio.antt =====
-- The behaviour of asio's socket that the library relies on, and what it makes of a start.
use libknx.Prelude.{ℕ, ◌≡◌, refl, ◌∙◌, Bool, true, false}
use libknx.Headers.IpAddress.{IpAddress}
use libknx.Connection.UdpSocket.Reading.{AsioSocket, Socket, then_call, prepared, reading}

-- The documented behaviour of asio, where each call may throw: a socket that is opened is open
-- unless that throws, opening an open socket is an error, the other calls neither open nor close it,
-- and `release` gives the descriptor away.
pub record IsAsio (asio : AsioSocket) : Type 0 where
  pub is_open : asio.State → Bool
  pub opened :
      (a : asio.State)
      → is_open a ≡ false
      → is_open ((asio.open_protocol a).0) ≡ (asio.open_protocol a).1
  pub already_open : (a : asio.State) → is_open a ≡ true → asio.open_protocol a ≡ (a, false)
  pub reused : (a : asio.State) → is_open ((asio.reuse_address a).0) ≡ is_open a
  pub bound : (port : ℕ) (a : asio.State) → is_open ((asio.bind port a).0) ≡ is_open a
  pub joined :
      (address : IpAddress) (a : asio.State) → is_open ((asio.join_group address a).0) ≡ is_open a
  pub released : (a : asio.State) → is_open (asio.release a) ≡ false

module _ (asio : AsioSocket) (laws : IsAsio asio) where
  -- A call behind others leaves an open socket open, whether it is made or not.
  then_call-open :
      (f : asio.State → asio.State × Bool) (x : asio.State × Bool)
      → ((a : asio.State) → laws.is_open ((f a).0) ≡ laws.is_open a)
      → laws.is_open (x.0) ≡ true
      → laws.is_open ((then_call asio f x).0) ≡ true
  then_call-open f (a, true) k o = k a ∙ o
  then_call-open f (a, false) k o = o

  -- What has been done before a call that has succeeded has succeeded.
  then_call-first :
      (f : asio.State → asio.State × Bool) (x : asio.State × Bool)
      → (then_call asio f x).1 ≡ true
      → x.1 ≡ true
  then_call-first f (a, true) h = refl
  then_call-first f (a, false) h = h

  -- Once the socket has been opened it stays open, whatever throws behind that.
  pub prepared-open :
      (port : ℕ) (a : asio.State)
      → laws.is_open a ≡ false
      → (asio.open_protocol a).1 ≡ true
      → laws.is_open ((prepared asio port a).0) ≡ true
  prepared-open port a closed o = then_call-open (asio.bind port) _ (laws.bound port) (
      then_call-open asio.reuse_address (asio.open_protocol a) laws.reused
        (laws.opened a closed ∙ o))

  pub prepared-succeeded :
      (port : ℕ) (a : asio.State)
      → laws.is_open a ≡ false
      → (prepared asio port a).1 ≡ true
      → laws.is_open ((prepared asio port a).0) ≡ true
  prepared-succeeded port a closed h = prepared-open port a closed (
      then_call-first asio.reuse_address (asio.open_protocol a) (
        then_call-first (asio.bind port) (then_call asio asio.reuse_address (asio.open_protocol a))
          h))

  -- An attempt as its socket and its flag.
  pub reading-lem :
      (s : Socket asio) (x : asio.State × Bool)
      → ((reading asio s x).1 ≡ x.1) × ((reading asio s x).0.socket ≡ x.0)
  reading-lem s (a, true) = (refl, refl)
  reading-lem s (a, false) = (refl, refl)

  pub reading-thrown :
      (s : Socket asio) (x : asio.State × Bool)
      → (reading asio s x).1 ≡ false
      → (reading asio s x).0.is_open ≡ s.is_open
  reading-thrown s (a, true) h = cc
  reading-thrown s (a, false) h = refl
