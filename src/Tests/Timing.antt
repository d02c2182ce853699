-- ===== src/Tests/Timing.antt =====
-- The time that `Acquire` and `Unlock` take, at a server whose lock is held for ever.
use dp_mongodb.Base.{ℕ, ◌+◌, ◌*◌, ◌≤◌, ◌≡◌, refl, String, Option, some, arith}
use dp_mongodb.Base.Int.{pos_part}
use dp_mongodb.Errors.{Err, named, name_eq, text, already_locked, acquire_max_retries}
use dp_mongodb.Lock.Retry.{timer_fired, retry}
use dp_mongodb.Lock.{default_settings, World, Lock, lock, acquire, unlock, Ending}
use dp_mongodb.Lock.Timing.{IsTimed, retries_time}

-- The state is the time. A call takes 3 ns, and a timer is late by 1 ns.
abbrev clocked : World
clocked = record {
  State = ℕ;
  x_lock = (λ name lock_id ttl s. (some (named already_locked), s + 3));
  unlock = (λ lock_id s. (some (text "down"), s + 3));
  generate_time_id = (λ s. (s, s));
  wait = (λ period s. (timer_fired, s + (period + 1)));
}

abbrev clocked-IsTimed : IsTimed clocked
clocked-IsTimed = record {
  time = (λ s. s);
  call = 3;
  late = 1;
  time-x_lock = (λ name lock_id ttl s. omega arith);
  time-unlock = (λ lock_id s. omega arith);
  time-generate_time_id = (λ s. omega arith);
  time-wait = (λ period s. omega arith);
}

abbrev images : Lock
images = record { resource = "images" }

-- Two and a half seconds, ten timers and eleven calls.
acquire_time :
    acquire clocked default_settings images "7" 0
    ≡ some (("", some (named acquire_max_retries)), 2_500_000_043)
unfolding acquire retry lock name_eq
acquire_time = refl

retries_time_example :
    ((out : (String × Option Err) × ℕ) × (acquire clocked default_settings images "7" 0 ≡ some out)
      × (out.1
          ≤ 0
            + (pos_part default_settings.acquire_max_retries
                  * (3 + 3 + (default_settings.acquire_period + 1))
                + (3 + 3))))
    × ((out : Ending × ℕ) × (unlock clocked default_settings "images-7-0" 0 ≡ some out)
        × (out.1
            ≤ 0
              + (pos_part default_settings.unlock_max_retries
                    * (3 + (default_settings.unlock_period + 1))
                  + 3)))
retries_time_example =
    retries_time clocked clocked-IsTimed default_settings 0 images "7" "images-7-0"
