-- ===== src/Tests/Closing.antt =====
-- Runs of `Close`, and the theorems at them.
use dp_mongodb.Base.{◌≤◌, ◌≡◌, ◌⊎◌, refl, true, false, none, some, arith}
use dp_mongodb.Base.Int.{negsuc}
use dp_mongodb.Errors.{canceled}
use dp_mongodb.Connection.Close.{
  Result, ok, timed_out, ctx_err, selecting, stopping, returned, disconnecting, sending, sent,
  panicked, State, init, start, fire, finish, disconnected, hand_over, time_out, context_done, stop,
  panic, Reach, here, next,
}
use dp_mongodb.Connection.Close.Laws.{nil_disconnected, error_panics}
use dp_mongodb.Connection.Close.Timing.{earliest, timed_out_late, far_timed_out, close_can_return}

-- After the `select` has begun, for a call at 20 ms with its deadline at 0.
abbrev late : State
late = record {
  now = 20_000_000;
  closer = selecting;
  worker = disconnecting;
  close_time = negsuc 9_999_999;
  fires_at = 20_000_000;
  fired = false;
  done = none;
  channel_closed = false;
}

Reach-late : Reach true (init (some 0) 20_000_000) late
Reach-late = next here (start refl)

abbrev closed_in_time : State
closed_in_time = record late { worker = sent; closer = returned ok; channel_closed = true }

Reach-closed_in_time : Reach true (init (some 0) 20_000_000) closed_in_time
Reach-closed_in_time =
    next (next (next Reach-late (disconnected refl)) (hand_over refl refl)) (stop ok refl refl)

abbrev given_up : State
given_up = record late {
  closer = returned (ctx_err canceled);
  done = some canceled;
  channel_closed = true;
}

abbrev cancelling : State
cancelling = record late { closer = stopping (ctx_err canceled); done = some canceled }

Reach-cancelling : Reach true (init (some 0) 20_000_000) cancelling
Reach-cancelling = next (next Reach-late (finish canceled refl)) (context_done canceled refl refl)

Reach-given_up : Reach true (init (some 0) 20_000_000) given_up
Reach-given_up = next Reach-cancelling (stop (ctx_err canceled) refl refl)

nil_disconnected_example : closed_in_time.worker ≡ sent
nil_disconnected_example = nil_disconnected true (some 0) 20_000_000 Reach-closed_in_time refl here

-- `Disconnect` returns after `Close` has, and the goroutine panics.
crash : Reach true given_up (record given_up { worker = panicked })
crash = next (next here (disconnected refl)) (panic refl refl)

error_panics_example : (panicked ≡ panicked) ⊎ ((panicked ≡ sending) × (true ≡ true))
error_panics_example =
    error_panics true (some 0) 20_000_000 (ctx_err canceled) Reach-given_up refl (λ e. cc e) crash
      (λ e. cc e)

abbrev after_timeout : State
after_timeout = record late { closer = returned timed_out; channel_closed = true }

Reach-after_timeout : Reach true (init (some 0) 20_000_000) after_timeout
Reach-after_timeout = next (next Reach-late (fire refl (omega arith))) (time_out refl refl)

timed_out_late_example : earliest (some 0) 20_000_000 ≤ 20_000_000
timed_out_late_example =
    timed_out_late true (some 0) 20_000_000 (omega arith) Reach-after_timeout refl

-- A deadline in the year 2400, for a call in 1970.
far_timed_out_example :
    (s : State) × Reach true (init (some 13_600_000_000_000_000_000) 0) s
    × (s.closer ≡ returned timed_out)
    × (s.now ≡ 0)
far_timed_out_example = far_timed_out true 13_600_000_000_000_000_000 0 (omega arith)

close_can_return_example :
    (t : State) × Reach true late t × (result : Result) × (t.closer ≡ returned result)
close_can_return_example = close_can_return true (some 0) 20_000_000 Reach-late
