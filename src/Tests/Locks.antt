-- ===== src/Tests/Locks.antt =====
-- The theorems on `dplock` at concrete worlds.
use dp_mongodb.Base.{
  ℕ, suc, ◌<◌, ◌≡◌, ◌≢◌, refl, String, true, Option, none, some, List, [], ◌∷◌, length, arith,
}
use dp_mongodb.Errors.{Err, named, name_eq, already_locked, foreign}
use dp_mongodb.Lock.Retry.{Wait, timer_fired, state_at, retry}
use dp_mongodb.Lock.Decimal.{decimal}
use dp_mongodb.Lock.{
  World, Lock, default_settings, lock, acquire, unlock, Ending, refused, is_already_locked,
}
use dp_mongodb.Lock.Acquire.{
  AcquireRan, before_attempt, acquire-Ran, acquire_if_granted, UnlockRan, unlock-Ran,
}

-- The client's answers, one for each call; after the last one every call succeeds.
abbrev answer : List (Option Err) → Option Err × List (Option Err)
answer [] = (none, [])
answer (e ∷ es) = (e, es)

abbrev scripted : World
scripted = record {
  State = List (Option Err);
  x_lock = λ name id ttl s. answer s;
  unlock = λ id s. answer s;
  generate_time_id = λ s. (length s, s);
  wait = λ period s. (timer_fired, s);
}

abbrev held : Option Err
held = some (named already_locked)

abbrev images : Lock
images = record { resource = "images" }

granted_second :
    acquire scripted default_settings images "7" (held ∷ none ∷ [])
    ≡ some (("images-7-1", none), [])
unfolding acquire retry lock decimal name_eq
granted_second = refl

acquire-Ran_example :
    (out : (String × Option Err) × List (Option Err)) × (acquire scripted default_settings images
        "7"
        (held ∷ none ∷ [])
      ≡ some out)
    × AcquireRan scripted default_settings images "7" (held ∷ none ∷ []) out
acquire-Ran_example = acquire-Ran scripted default_settings images "7" (held ∷ none ∷ [])

first_held :
    (j : ℕ)
    → j < 1
    → let u = before_attempt scripted default_settings images "7" j (held ∷ none ∷ []) in
      (is_already_locked (lock scripted images "7" u).0.1 ≡ true)
      × (◌≡◌ {A = Wait} timer_fired timer_fired)
unfolding lock state_at name_eq
first_held ℕ.zero u = (refl, refl)
first_held (suc j) u = absurd (omega arith)

acquire_if_granted_example :
    acquire scripted default_settings images "7" (held ∷ none ∷ [])
    ≡ some (("images-7-1", none), [])
unfolding lock state_at decimal
acquire_if_granted_example =
    acquire_if_granted scripted default_settings images "7" (held ∷ none ∷ []) [] 1 "images-7-1"
      (omega arith) first_held refl

unlock-Ran_example :
    (out : Ending × List (Option Err)) × (unlock scripted default_settings "images-7-1"
        (some (foreign "lost") ∷ [])
      ≡ some out)
    × UnlockRan scripted default_settings "images-7-1" (some (foreign "lost") ∷ []) out
    × ((e : Err) → out.0 ≢ refused e)
unlock-Ran_example = unlock-Ran scripted default_settings "images-7-1" (some (foreign "lost") ∷ [])
