-- ===== src/Connection/Close.antt =====
-- `MongoConnection.Close` and the goroutine that it starts, which runs `graceful.shutdown`,
-- interleaved in any order with each other and with time, in nanoseconds.
pub mod Laws
pub mod Timing
use dp_mongodb.Base.{
  ℕ, suc, ◌+◌, ◌-◌, ◌≤◌, ◌≡◌, Bool, true, false, Option, none, some, leb, ◌&&◌, if◌then◌else◌,
}
use dp_mongodb.Base.Int.{ℤ, pos, negsuc}
use dp_mongodb.Base.Duration.{sub, plus}
use dp_mongodb.Errors.{Name}

-- `timeLeft`: 1000 ms
abbrev pub time_left : ℕ
time_left = 1_000_000_000

-- What is added to the time up to the deadline: 10 ms
abbrev pub grace : ℕ
grace = 10_000_000

-- `closeTimeLeft`, for the context's deadline and the time
abbrev pub close_time_left : Option ℕ → ℕ → ℤ
close_time_left none now = pos time_left
close_time_left (some deadline) now = plus (sub deadline now) grace

-- When a new timer fires. One with a negative duration fires at once.
abbrev pub expiry : ℕ → ℤ → ℕ
expiry now (pos n) = now + n
expiry now (negsuc n) = now

-- What `Close` returns.
pub data Result : Type 0 where
  -- nil
  ok : Result
  -- "closing mongo timed out"
  timed_out : Result
  -- `ctx.Err()`
  ctx_err : Name → Result

-- Where `Close` stands.
pub data Closer : Type 0 where
  -- before `time.NewTimer`; the goroutine is there
  starting : Closer
  -- in the `select`
  selecting : Closer
  -- before `delay.Stop()`
  stopping : Result → Closer
  -- in `<-delay.C`
  draining : Result → Closer
  -- `Close` has returned
  returned : Result → Closer

-- Where the goroutine stands.
pub data Worker : Type 0 where
  -- in `mongoClient.Disconnect(ctx)`
  disconnecting : Worker
  -- at `closedChannel <- true`
  sending : Worker
  -- after it
  sent : Worker
  -- a send on a closed channel
  panicked : Worker

pub record State : Type 0 where
  pub now : ℕ
  pub closer : Closer
  pub worker : Worker
  pub close_time : ℤ
  -- when the timer fires, once it is made
  pub fires_at : ℕ
  -- the timer has fired, and its value has not been received
  pub fired : Bool
  -- `ctx.Err()`
  pub done : Option Name
  -- `closedChannel` is closed
  pub channel_closed : Bool

-- The call, with a context of this deadline.
abbrev pub init : Option ℕ → ℕ → State
init deadline now = record {
  now = now;
  closer = starting;
  worker = disconnecting;
  close_time = close_time_left deadline now;
  fires_at = 0;
  fired = false;
  done = none;
  channel_closed = false;
}

-- `return`, and the deferred `close(closedChannel)`
abbrev pub return_ : Result → State → State
return_ r s = record s { closer = returned r; fired = false; channel_closed = true }

-- `old_timers`: the main program's module asks for the timers of Go before 1.23. Their `Stop` returns
-- false if the timer has fired, and its value is still to be received; that of the later ones returns
-- true, and drops the value.
pub data Step (old_timers : Bool) (s : State) : State → Type 0 where
  tick : Step old_timers s (record s { now = suc s.now })
  -- `time.NewTimer(closeTimeLeft)`
  start :
      s.closer ≡ starting
      → Step old_timers s (record s { closer = selecting; fires_at = expiry s.now s.close_time })
  fire : s.closer ≡ selecting → s.fires_at ≤ s.now → Step old_timers s (record s { fired = true })
  fire_late :
      (r : Result)
      → s.closer ≡ stopping r
      → s.fires_at ≤ s.now
      → Step old_timers s (record s { fired = true })
  -- the context is cancelled, or its deadline has passed
  finish : (n : Name) → s.done ≡ none → Step old_timers s (record s { done = some n })
  -- `Disconnect` returns; an error of it is logged
  disconnected : s.worker ≡ disconnecting → Step old_timers s (record s { worker = sending })
  -- `closedChannel <- true`, and `case <-closedChannel`
  hand_over :
      s.worker ≡ sending
      → s.closer ≡ selecting
      → Step old_timers s (record s { worker = sent; closer = stopping ok })
  -- `case <-delay.C`
  time_out : s.closer ≡ selecting → s.fired ≡ true → Step old_timers s (return_ timed_out s)
  -- `case <-ctx.Done()`
  context_done :
      (n : Name)
      → s.closer ≡ selecting
      → s.done ≡ some n
      → Step old_timers s (record s { closer = stopping (ctx_err n) })
  -- `delay.Stop()` returns true
  stop :
      (r : Result)
      → s.closer ≡ stopping r
      → (old_timers && s.fired) ≡ false
      → Step old_timers s (return_ r s)
  -- it returns false
  too_late :
      (r : Result)
      → s.closer ≡ stopping r
      → (old_timers && s.fired) ≡ true
      → Step old_timers s (record s { closer = draining r })
  -- `<-delay.C`
  drain : (r : Result) → s.closer ≡ draining r → s.fired ≡ true → Step old_timers s (return_ r s)
  -- `closedChannel <- true` on a closed channel
  panic :
      s.worker ≡ sending
      → s.channel_closed ≡ true
      → Step old_timers s (record s { worker = panicked })

pub data Reach (old_timers : Bool) (s : State) : State → Type 0 where
  here : Reach old_timers s s
  next : {t u : State} → Reach old_timers s t → Step old_timers t u → Reach old_timers s u
