-- ===== src/Message/Factory/Types.antt =====
-- The kind of a message that `getType` tells, against what the two parsers do.
use libknx.Prelude.{
  ℕ, ◌≡◌, ◌≢◌, ◌↔◌, refl, Bool, true, false, ◌==◌, if◌then◌else◌, Bool-cases, ==_iff, inl, inr,
}
use libknx.Bytes.Parser.{Endian, Parser, ByteBufferReader, Result, ok, err, pure, continue}
use libknx.Message.IpHeader.{KnxIpHeader}
use libknx.Message.Request
use libknx.Message.Request.{
  RequestVariant, no_request, tunnel_request, connect_state_request, connect_request,
  disconnect_request, search_request, description_request, get_service_type, write, by_value,
  left_at, matches_response, tunnel_matches, parse_connect, parse_connect_state,
}
use libknx.Message.Response
use libknx.Message.Response.{
  TunnelAckResponse, DisconnectResponse, tunnel_ack_to_bytes, disconnect_to_bytes, ResponseVariant,
  monostate, connect, connect_state, tunnel_ack, search, disconnect, description,
}
use libknx.Message.Factory.{
  MessageType, request, response, unknown, alternative, get_type, parse_request, parse_response,
}

module _ (native : Endian) where
  -- What is parsed by the service type, and what the type of the message is.
  abbrev Agrees : {A : Type 0} → MessageType → A → MessageType → Parser A → Type 0
  Agrees kind nothing t p = (r : ByteBufferReader) → (t ≡ kind) ↔ (p r ≢ ok (nothing, r))

  branch :
      {A : Type 0} {kind : MessageType} {nothing : A} (b : Bool) {t u : MessageType}
      {p q : Parser A}
      → Agrees kind nothing t p
      → Agrees kind nothing u q
      → Agrees kind nothing (if b then t else u) (if b then p else q)
  branch true h k = h
  branch false h k = k

  neither :
      {A : Type 0} (kind : MessageType) (nothing : A) {t : MessageType}
      → t ≢ kind
      → Agrees kind nothing t (pure nothing)
  neither kind nothing h r = (λ e. absurd (h e), λ n. absurd (n refl))

  not_nothing :
      {A B : Type 0} (f : A → B) (test : B → Bool) {nothing : B} (r : ByteBufferReader)
      → test nothing ≡ false
      → ((a : A) → test (f a) ≡ true)
      → (x : Result (A × ByteBufferReader)) → continue (λ a. pure (f a)) x ≢ ok (nothing, r)
  not_nothing f test {nothing = nothing} r n h (ok (a, s)) e =
      let same : f a ≡ nothing = cc e in cc (n, h a, same)
  not_nothing f test r n h (err x) e = cc

  found :
      {A B : Type 0} (kind : MessageType) (test : B → Bool) {nothing : B} (f : A → B) (p : Parser A)
      → test nothing ≡ false
      → ((a : A) → test (f a) ≡ true)
      → Agrees kind nothing kind (alternative f p)
  unfolding alternative
  found kind test f p n h r = (λ _. not_nothing f test r n h (p r), λ _. refl)

  response-not_request : response ≢ request
  response-not_request e = cc e

  unknown-not_request : unknown ≢ request
  unknown-not_request e = cc e

  request-not_response : request ≢ response
  request-not_response e = cc e

  unknown-not_response : unknown ≢ response
  unknown-not_response e = cc e

  neither_of :
      {kind : MessageType} (b : Bool) {t u : MessageType}
      → t ≢ kind
      → u ≢ kind
      → (if b then t else u) ≢ kind
  neither_of true h k = h
  neither_of false h k = k

  skip :
      {A : Type 0} {kind : MessageType} {nothing : A} (s k : ℕ) {t u : MessageType} (p : Parser A)
      → t ≢ kind
      → (s ≡ k → p ≡ pure nothing)
      → Agrees kind nothing u p
      → Agrees kind nothing (if s == k then t else u) p
  skip {kind} {nothing} s k {t} {u} p h e rest = elim (Bool-cases (s == k)) [
    | inl y ↦ rw (y, e ((==_iff s k).0 y)) (neither kind nothing h)
    | inr n ↦ rw n rest
  ]

  abbrev is_request : RequestVariant → Bool
  is_request no_request = false
  is_request _ = true

  abbrev is_response : ResponseVariant → Bool
  is_response monostate = false
  is_response _ = true

  request-Agrees :
      (h : KnxIpHeader) → Agrees request no_request (get_type h) (parse_request native h)
  unfolding get_type parse_request
  request-Agrees h = branch _ (found request is_request tunnel_request _ refl (λ _. refl)) (
      branch _ (found request is_request connect_state_request _ refl (λ _. refl)) (
        branch _ (found request is_request connect_request _ refl (λ _. refl)) (
          branch _ (found request is_request disconnect_request _ refl (λ _. refl)) (
            branch _ (found request is_request search_request _ refl (λ _. refl)) (
              branch _ (found request is_request description_request _ refl (λ _. refl)) (
                neither request no_request (
                  neither_of (h.service_type == Response.tunnel_ack_id) response-not_request (
                    neither_of (h.service_type == Response.connect_state_id) response-not_request (
                      neither_of (h.service_type == Response.connect_id) response-not_request (
                        neither_of (h.service_type == Response.disconnect_id) response-not_request (
                          neither_of (h.service_type == Response.search_id) response-not_request (
                            neither_of (h.service_type == Response.description_id)
                              response-not_request (unknown-not_request)))))))))))))

  response-Agrees :
      (h : KnxIpHeader) → Agrees response monostate (get_type h) (parse_response native h)
  unfolding get_type parse_response
  response-Agrees h =
      skip h.service_type Request.tunnel_id _ request-not_response (λ e. rw e refl)
        (skip h.service_type Request.connect_state_id _ request-not_response (λ e. rw e refl)
          (skip h.service_type Request.connect_id _ request-not_response (λ e. rw e refl)
            (skip h.service_type Request.disconnect_id _ request-not_response (λ e. rw e refl)
              (skip h.service_type Request.search_id _ request-not_response (λ e. rw e refl)
                (skip h.service_type Request.description_id _ request-not_response (λ e. rw e refl)
                  (branch _ (found response is_response tunnel_ack _ refl (λ _. refl)) (
                    branch _ (found response is_response connect_state _ refl (λ _. refl)) (
                      branch _ (found response is_response connect _ refl (λ _. refl)) (
                        branch _ (found response is_response disconnect _ refl (λ _. refl)) (
                          branch _ (found response is_response search _ refl (λ _. refl)) (
                            branch _ (found response is_response description _ refl (λ _. refl))
                              (neither response monostate unknown-not_response))))))))))))

  -- `get_type` agrees with the two parsers, for every header and reader: a message is called a
  -- request exactly when `parse_request` does not pass it over, and a response exactly when
  -- `parse_response` does not.
  pub get_type-parsers :
      (h : KnxIpHeader) (r : ByteBufferReader)
      → ((get_type h ≡ request) ↔ (parse_request native h r ≢ ok (no_request, r)))
        × ((get_type h ≡ response) ↔ (parse_response native h r ≢ ok (monostate, r)))
  get_type-parsers h r = (request-Agrees h r, response-Agrees h r)
