-- ===== src/Connection/System/Closing.antt =====
-- The end of a client's tunneling connection.
use libknx.Prelude.{ℕ, zero, suc, ◌≡◌, refl, ap, ◌∙◌, [], ◌∷◌, map, drop, length, drop-append, Bool}
use libknx.Connection.Outcome.{done, ◌>>=◌}
use libknx.Connection.Tunneling.State.{Connection, Action}
use libknx.Connection.Tunneling.State as Tunnel
use libknx.Connection.Tunneling.Laws.Close.{
  closed, farewell, repeated, open_sockets, close_without_disconnect_lem,
}
use libknx.Connection.Client.State.{Client, itself, on_disconnect}
use libknx.Connection.Client.Listeners as Listeners
use libknx.Connection.Client.Laws.Listeners.{all_told, for_every_listener_lem}
use libknx.Connection.Client.Laws.Confirmed.{over}
use libknx.Connection.System.{heard, tell, bereft, close_returned}

-- Every living listener of the client hears that often that it is disconnected.
abbrev pub disconnected_times : (ℕ → Bool) → ℕ → Client → Client
disconnected_times alive zero c = c
disconnected_times alive (suc n) c = disconnected_times alive n (all_told alive on_disconnect c)

module _ (alive : ℕ → Bool) where
  tell-repeated :
      (n : ℕ) (c : Client)
      → tell alive (repeated n (Tunnel.told itself Tunnel.on_disconnect ∷ [])) c
        ≡ done (disconnected_times alive n c)
  unfolding tell heard Listeners.disconnected
  tell-repeated zero c = refl
  tell-repeated (suc n) c =
      ap (λ o. o >>= tell alive (repeated n (Tunnel.told itself Tunnel.on_disconnect ∷ [])))
        (for_every_listener_lem alive on_disconnect c)
      ∙ tell-repeated n (all_told alive on_disconnect c)

  -- When a client that is its connection's only listener destroys that connection, the destructor
  -- closes it once more: every living listener of the client hears that it is disconnected once,
  -- and once more for every socket that is open. After that the client has no tunneling connection,
  -- and nothing but the traces of its waiting coroutines is left of it.
  pub close_returned-told :
      (t : Connection) (c : Client)
      → t.connection_listeners ≡ itself ∷ []
      → close_returned alive (over t c)
        ≡ done (disconnected_times alive (suc (open_sockets t)) (bereft (closed t) c))
  unfolding close_returned
  close_returned-told t c l =
      ap (λ s. tell alive (drop (length t.actions) s.actions) (bereft s c))
        ((close_without_disconnect_lem 0 t).1)
      ∙ ap (λ actions. tell alive actions (bereft (closed t) c))
          (drop-append t.actions (repeated (suc (open_sockets t)) (farewell t)))
      ∙ ap
          (λ ls.
            tell alive
              (repeated (suc (open_sockets t)) (map (λ m. Tunnel.told m Tunnel.on_disconnect) ls))
              (bereft (closed t) c))
          l
      ∙ tell-repeated (suc (open_sockets t)) (bereft (closed t) c)
