-- ===== src/Connection/AsyncMessage/Laws.antt =====
-- How often a message is sent, and how sending ends.
use libknx.Prelude.{
  ℕ, zero, suc, ◌+◌, ◌≡◌, ◌≢◌, ◌<◌, ◌≤◌, refl, arith, List, [], ◌∷◌, true, false, ◌==◌, ◌⊎◌, ap,
  ◌∙◌, Bool-cases, inl, inr, if◌then◌else◌,
}
use libknx.Connection.AsyncMessage.{
  State, ok, sending, timeout, error, Place, idle, in_send, in_wait, returned, Waited, expired,
  aborted, failed, Event, sent, waited, set_response, cancel, AsyncMessage, loop, send, after_send,
  after_wait, state_after, step, decrement, is_sending, is_settled, Reachable, called, next,
  IsHonest,
}

is_sending-cases : (s : State) → ((is_sending s ≡ true) × (s ≡ sending)) ⊎ (is_sending s ≡ false)
unfolding is_sending
is_sending-cases sending = inl (refl, refl)
is_sending-cases _ = inr refl

left_over : (n : ℕ) → (suc n == 0) ≡ false
left_over n = ground arith

decrement-suc : (n : ℕ) → decrement (suc n) ≡ n
unfolding decrement
decrement-suc n = ground arith

module _ {R : Type 0} where
  -- While `send` has not returned, every attempt is either made or left; it is never more.
  record Counted (n : ℕ) (m : AsyncMessage R) : Type 0 where
    within : m.sends ≤ n
    exact : m.place ≢ returned → m.sends + m.attempts ≡ n

  loop-Counted :
      (n : ℕ) (m : AsyncMessage R)
      → m.sends ≤ n
      → (m.state ≡ sending → (m.sends + m.attempts ≡ n) × (m.attempts ≢ 0))
      → Counted n (loop m)
  unfolding loop is_sending decrement
  loop-Counted n m h k = elim (is_sending-cases m.state) [
    | inl y ↦ rw (y.0) (record {
      within = omega (arith, (k (y.1)).0, (k (y.1)).1);
      exact = λ p. ground (arith, (k (y.1)).0, (k (y.1)).1);
    })
    | inr n ↦ rw n (record { within = h; exact = λ p. absurd (p refl) })
  ]

  abbrev at : AsyncMessage R → Place → AsyncMessage R
  at m p = record m { place = p }

  sent-Counted :
      (n : ℕ) (m : AsyncMessage R) (p : Place) → Counted n (at m p) → Counted n (step (at m p) sent)
  unfolding step after_send
  sent-Counted n m in_send c = elim (Bool-cases (is_settled m.state)) [
    | inl y ↦ rw y (record { within = c.within; exact = λ p. absurd (p refl) })
    | inr f ↦ rw f (record { within = c.within; exact = λ p. c.exact (λ q. cc q) })
  ]
  sent-Counted n m idle c = c
  sent-Counted n m in_wait c = c
  sent-Counted n m returned c = c

  -- Behind the wait, the state is still `sending` only where an attempt is left.
  state_after-sending :
      (w : Waited) (m : AsyncMessage R)
      → IsHonest m (waited w)
      → state_after w m.attempts m.state ≡ sending
      → m.attempts ≢ 0
  unfolding state_after
  state_after-sending expired m h e z = absurd (cc (rw z at e))
  state_after-sending aborted m h e z = h e
  state_after-sending failed m h e z = cc e

  waited-Counted :
      (n : ℕ) (m : AsyncMessage R) (w : Waited) (p : Place)
      → IsHonest m (waited w)
      → Counted n (at m p)
      → Counted n (step (at m p) (waited w))
  unfolding step after_wait
  waited-Counted n m w in_wait h c =
      loop-Counted n _ c.within λ s. (c.exact (λ q. cc q), state_after-sending w m h s)
  waited-Counted n m w idle h c = c
  waited-Counted n m w in_send h c = c
  waited-Counted n m w returned h c = c

  step-Counted :
      (n : ℕ) (m : AsyncMessage R) (e : Event R) → IsHonest m e → Counted n m → Counted n (step m e)
  unfolding step after_send after_wait state_after
  step-Counted n m (set_response r) h c = record { within = c.within; exact = c.exact }
  step-Counted n m cancel h c = record { within = c.within; exact = c.exact }
  step-Counted n m sent h c = sent-Counted n m m.place c
  step-Counted n m (waited w) h c = waited-Counted n m w m.place h c

  reach :
      (n : ℕ) (start m : AsyncMessage R)
      → 0 < n
      → start.sends ≡ 0
      → Reachable n start m
      → Counted n m
  unfolding send
  reach n start _ p z called =
      loop-Counted n _ (omega (arith, z)) (λ e. (omega (arith, z), omega arith))
  reach n start _ p z (next m e r h) = step-Counted n m e h (reach n start m p z r)

  -- A call of `send` with at least one attempt, on a fresh message, calls the send method at most that many times, whatever
  -- happens, as long as the timer's wait is aborted by an answer or a cancellation only.
  pub sends-Reachable :
      (n : ℕ) (start m : AsyncMessage R)
      → 0 < n
      → start.sends ≡ 0
      → Reachable n start m
      → m.sends ≤ n
  sends-Reachable n start m p z r = (reach n start m p z r).within

  -- Any number of events, the first one first.
  abbrev pub run : AsyncMessage R → List (Event R) → AsyncMessage R
  run m [] = m
  run m (e ∷ es) = run (step m e) es

  -- Every wait runs out, so many times.
  abbrev pub unanswered : ℕ → List (Event R)
  unanswered zero = []
  unanswered (suc n) = sent ∷ waited expired ∷ unanswered n

  abbrev attempt : AsyncMessage R → ℕ → ℕ → AsyncMessage R
  attempt m left k = record m { state = sending; attempts = left; place = in_send; sends = k }

  abbrev pub timed_out : AsyncMessage R → ℕ → AsyncMessage R
  timed_out m k = record m { state = timeout; attempts = 0; place = returned; sends = k }

  one_more :
      (m : AsyncMessage R) (left k : ℕ)
      → step (step (attempt m (suc left) k) sent) (waited expired) ≡ attempt m left (suc k)
  unfolding step after_send after_wait loop state_after is_sending is_settled
  one_more m left k = rw (left_over left, decrement-suc left) refl

  unanswered-attempt :
      (m : AsyncMessage R) (left k : ℕ)
      → run (attempt m left k) (unanswered (suc left)) ≡ timed_out m (k + left)
  unfolding step after_send after_wait loop state_after is_sending is_settled decrement
  unanswered-attempt m zero k = ground arith
  unanswered-attempt m (suc left) k =
      ap (λ x. run x (unanswered (suc left))) (one_more m left k)
      ∙ (unanswered-attempt m left (suc k) ∙ ap (timed_out m) (omega arith))

  -- A call of `send` with at least one attempt, of which every wait runs out, ends in the state
  -- `timeout` after exactly as many calls of the send method as it had attempts.
  pub send-unanswered :
      (n : ℕ) (m : AsyncMessage R)
      → 0 < n
      → run (send n m) (unanswered n) ≡ timed_out m (m.sends + n)
  unfolding send loop is_sending
  send-unanswered zero m p = absurd (omega arith)
  send-unanswered (suc n) m p =
      ap (λ d. run (attempt m d (suc m.sends)) (unanswered (suc n))) (decrement-suc n)
      ∙ (unanswered-attempt m n (suc m.sends) ∙ ap (timed_out m) (omega arith))

  -- What becomes of a response that comes during a wait, when the wait then completes: `send`
  -- returns and keeps the response, but the state is `ok` only if the wait was aborted or attempts
  -- are left. If the timer had run out already at the last attempt, the state is `timeout`, and if
  -- the timer fails, it is `error`.
  pub set_response-waited :
      (m : AsyncMessage R) (r : R) (w : Waited)
      → m.place ≡ in_wait
      → run m (set_response r ∷ waited w ∷ []) ≡ record m {
        state = elim w [
          | expired ↦ if m.attempts == 0 then timeout else ok
          | aborted ↦ ok
          | failed ↦ error
        ];
        response = r;
        place = returned;
      }
  unfolding step after_wait loop state_after is_sending
  set_response-waited m r expired e = elim (Bool-cases (m.attempts == 0)) [
    | inl y ↦ rw (e, y) refl
    | inr n ↦ rw (e, n) refl
  ]
  set_response-waited m r aborted e = rw e refl
  set_response-waited m r failed e = rw e refl
