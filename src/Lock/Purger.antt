-- ===== src/Lock/Purger.antt =====
-- The goroutine of `startPurgerLoop`, with time in nanoseconds, and any number of calls of `Close`,
-- interleaved in any order. `Init` has added one to the wait group and started the goroutine.
pub mod Invariant
pub mod Laws
pub mod Rate
use dp_mongodb.Base.{ℕ, suc, ◌+◌, ◌-◌, ◌*◌, ◌≤◌, ◌≡◌, Bool, true, false, ◌&&◌, ◌==◌, if◌then◌else◌}

-- `PurgerPeriod`: 5 minutes
abbrev pub purger_period : ℕ
purger_period = 5 * 60_000_000_000

-- Where the goroutine stands.
pub data Loop : Type 0 where
  -- in `l.Purger.Purge(ctx)`
  purging : Loop
  -- in the `select`, with a timer of `PurgerPeriod`
  selecting : Loop
  -- before `delay.Stop()`
  stopping : Loop
  -- in `<-delay.C`
  draining : Loop
  -- after `l.WaitGroup.Done()`
  finished : Loop

-- Where a caller of `Close` stands.
pub data Closer : Type 0 where
  -- before `Close`
  open_ : Closer
  -- in `l.WaitGroup.Wait()`
  waiting : Closer
  -- after `Close`
  closed : Closer
  -- `close` of a channel that is closed
  panicked : Closer

pub record State : Type 0 where
  pub now : ℕ
  pub loop : Loop
  -- when the timer of this round fires
  pub fires_at : ℕ
  -- it has fired, and its value has not been received
  pub fired : Bool
  -- the callers by their numbers, each of which calls `Close` once at most
  pub callers : ℕ → Closer
  -- `CloserChannel` is closed
  pub channel_closed : Bool
  -- the counter of `WaitGroup`
  pub wait_group : ℕ
  -- the number of purges so far
  pub purges : ℕ

abbrev pub put : ℕ → Closer → (ℕ → Closer) → ℕ → Closer
put i c callers j = if i == j then c else callers j

-- After `Init`.
abbrev pub init : ℕ → State
init now = record {
  now = now;
  loop = purging;
  fires_at = 0;
  fired = false;
  callers = λ i. open_;
  channel_closed = false;
  wait_group = 1;
  purges = 0;
}

-- `old_timers`: the main program's module asks for the timers of Go before 1.23. Their `Stop` returns
-- false if the timer has fired, and its value is still to be received; that of the later ones returns
-- true, and drops the value.
pub data Step (old_timers : Bool) (s : State) : State → Type 0 where
  pass : Step old_timers s (record s { now = suc s.now })
  -- `Purge` returns, and a new timer is made
  purge :
      s.loop ≡ purging
      → Step old_timers s (record s {
        loop = selecting;
        fires_at = s.now + purger_period;
        fired = false;
        purges = suc s.purges;
      })
  -- the period is over
  fire : s.loop ≡ selecting → s.fires_at ≤ s.now → Step old_timers s (record s { fired = true })
  fire_late : s.loop ≡ stopping → s.fires_at ≤ s.now → Step old_timers s (record s { fired = true })
  -- `case <-delay.C`, and the next round
  tick :
      s.loop ≡ selecting
      → s.fired ≡ true
      → Step old_timers s (record s { loop = purging; fired = false })
  -- `case <-l.CloserChannel`
  see_closed :
      s.loop ≡ selecting
      → s.channel_closed ≡ true
      → Step old_timers s (record s { loop = stopping })
  -- `delay.Stop()` returns true, and the goroutine returns. A value that the timer has sent is
  -- dropped then.
  stop :
      s.loop ≡ stopping
      → (old_timers && s.fired) ≡ false
      → Step old_timers s
          (record s { loop = finished; fired = false; wait_group = s.wait_group - 1 })
  -- it returns false
  too_late :
      s.loop ≡ stopping
      → (old_timers && s.fired) ≡ true
      → Step old_timers s (record s { loop = draining })
  -- `<-delay.C`, and the goroutine returns
  drain :
      s.loop ≡ draining
      → s.fired ≡ true
      → Step old_timers s
          (record s { loop = finished; fired = false; wait_group = s.wait_group - 1 })
  -- `close(l.CloserChannel)`
  close :
      (i : ℕ)
      → s.callers i ≡ open_
      → s.channel_closed ≡ false
      → Step old_timers s (record s { callers = put i waiting s.callers; channel_closed = true })
  close_again :
      (i : ℕ)
      → s.callers i ≡ open_
      → s.channel_closed ≡ true
      → Step old_timers s (record s { callers = put i panicked s.callers })
  -- `l.WaitGroup.Wait()` returns
  wait_over :
      (i : ℕ)
      → s.callers i ≡ waiting
      → s.wait_group ≡ 0
      → Step old_timers s (record s { callers = put i closed s.callers })

pub data Reach (old_timers : Bool) (s : State) : State → Type 0 where
  here : Reach old_timers s s
  next : {t u : State} → Reach old_timers s t → Step old_timers t u → Reach old_timers s u
