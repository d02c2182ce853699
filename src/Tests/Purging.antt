-- ===== src/Tests/Purging.antt =====
-- Runs of the purger and of two calls of `Close`, and the theorems at them.
use dp_mongodb.Base.{ℕ, ◌+◌, ◌*◌, ◌≤◌, ◌≡◌, ◌⊎◌, refl, true}
use dp_mongodb.Lock.Purger.{
  Loop, finished, open_, waiting, closed, panicked, purger_period, State, init, put, purge,
  see_closed, stop, close, close_again, wait_over, Reach, here, next, selecting, purging,
}
use dp_mongodb.Lock.Purger.Laws.{closed_quiet, CanReturn, close_returns}
use dp_mongodb.Lock.Purger.Rate.{purges_paced}

-- One call of `Close` during the first purge.
abbrev closing_early : State
closing_early = record (init 7) { callers = put 1 waiting (λ i. open_); channel_closed = true }

Reach-closing_early : Reach true (init 7) closing_early
Reach-closing_early = next here (close 1 refl refl)

abbrev all_closed : State
all_closed = record closing_early {
  loop = finished;
  fires_at = 7 + purger_period;
  callers = put 1 closed (put 1 waiting (λ i. open_));
  wait_group = 0;
  purges = 1;
}

Reach-all_closed : Reach true (init 7) all_closed
Reach-all_closed =
    next
      (next (next (next Reach-closing_early (purge refl)) (see_closed refl refl)) (stop refl refl))
      (wait_over 1 refl refl)

close_returns_example : CanReturn true 1 1 closing_early
close_returns_example = close_returns true 7 1 Reach-closing_early refl

-- A second call panics.
abbrev second_call : State
second_call = record all_closed { callers = put 2 panicked all_closed.callers }

Reach-second_call : Reach true all_closed second_call
Reach-second_call = next here (close_again 2 refl refl)

closed_quiet_example :
    (◌≡◌ {A = Loop} finished finished)
    × (◌≡◌ {A = ℕ} 1 1)
    × ((◌≡◌ {A = ℕ} 1 2) ⊎ ((panicked ≡ open_) ⊎ (panicked ≡ panicked)))
closed_quiet_example = closed_quiet true 7 1 2 Reach-all_closed refl Reach-second_call

-- After the first purge.
abbrev waits : State
waits = record (init 7) { loop = selecting; fires_at = 7 + purger_period; purges = 1 }

Reach-waits : Reach true (init 7) waits
Reach-waits = next here (purge refl)

purges_paced_example :
    (◌≡◌ {A = ℕ} 1 0 → selecting ≡ purging)
    × (7 + 1 * purger_period ≤ 7 + purger_period)
    × (◌≡◌ {A = Loop} selecting selecting
        → (t : State) × Reach true waits t × (t.purges ≡ 2) × (t.now ≤ 7 + purger_period))
purges_paced_example = purges_paced true 7 Reach-waits
