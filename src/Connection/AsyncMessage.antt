-- ===== src/Connection/AsyncMessage.antt =====
-- src/knx/connection/AsyncMessageState.cpp: one message that is sent until it is answered. The
-- coroutine `send` stands still at its two `co_await`s; between its steps the connection may call
-- `setResponse` and `cancel`. The timer and the send method are the environment's: what they report
-- is the event.
pub mod Laws
use libknx.Prelude.{
  ℕ, suc, ◌^◌, ◌+◌, ◌-◌, ◌≡◌, ◌≢◌, ◌<◌, Bool, true, false, if◌then◌else◌, ◌==◌, ◌||◌, ◌&&◌,
}

pub data State : Type 0 where
  initial ok sending timeout canceled error : State

-- Where `send` stands: not called, in `co_await sendMethod()`, in `co_await async_wait`, returned.
pub data Place : Type 0 where
  idle in_send in_wait returned : Place

-- What the timer's wait completes with: no error, `operation_aborted`, any other error.
pub data Waited : Type 0 where
  expired aborted failed : Waited

pub data Event (R : Type 0) : Type 0 where
  sent : Event R
  waited : Waited → Event R
  set_response : R → Event R
  cancel : Event R

-- `attempts` is the parameter of `send`; `sends` counts the calls of the send method.
pub record AsyncMessage (R : Type 0) : Type 0 where
  pub state : State
  pub response : R
  pub attempts : ℕ
  pub place : Place
  pub sends : ℕ

unfoldable pub is_sending : State → Bool
is_sending sending = true
is_sending _ = false

-- `state == State::ok || state == State::canceled`
unfoldable pub is_settled : State → Bool
is_settled ok = true
is_settled canceled = true
is_settled _ = false

-- `attempts--` on an `unsigned int`
unfoldable pub decrement : ℕ → ℕ
decrement attempts = if attempts == 0 then 2 ^ 32 - 1 else attempts - 1

-- What the end of the wait makes of the state.
unfoldable pub state_after : Waited → ℕ → State → State
state_after expired attempts s = if attempts == 0 then timeout else s
state_after aborted attempts s = s
state_after failed attempts s = error

module _ {R : Type 0} where
  -- From the test of the loop to the next `co_await`.
  unfoldable pub loop : AsyncMessage R → AsyncMessage R
  loop m =
      if is_sending m.state
      then record m { attempts = decrement m.attempts; place = in_send; sends = suc m.sends }
      else record m { place = returned }

  unfoldable pub send : ℕ → AsyncMessage R → AsyncMessage R
  send attempts m = loop (record m { state = sending; attempts = attempts })

  unfoldable pub after_send : AsyncMessage R → AsyncMessage R
  after_send m =
      if is_settled m.state then record m { place = returned } else record m { place = in_wait }

  unfoldable pub after_wait : Waited → AsyncMessage R → AsyncMessage R
  after_wait w m = loop (record m { state = state_after w m.attempts m.state })

  -- An event that `send` does not wait for leaves the message as it is.
  unfoldable pub step : AsyncMessage R → Event R → AsyncMessage R
  step m (set_response r) = record m { state = ok; response = r }
  step m cancel = record m { state = canceled }
  step m sent = elim m.place [ in_send ↦ after_send m | _ ↦ m ]
  step m (waited w) = elim m.place [ in_wait ↦ after_wait w m | _ ↦ m ]

  -- The timer's wait is aborted by `setResponse` and `cancel` only, which change the state.
  abbrev pub IsHonest : AsyncMessage R → Event R → Type 0
  IsHonest m (waited aborted) = m.state ≢ sending
  IsHonest m _ = Unit

  -- The messages that a call of `send` with so many attempts can come to.
  pub data Reachable (attempts : ℕ) (start : AsyncMessage R) : AsyncMessage R → Type 0 where
    called : Reachable attempts start (send attempts start)
    next :
        (m : AsyncMessage R) (e : Event R)
        → Reachable attempts start m
        → IsHonest m e
        → Reachable attempts start (step m e)
