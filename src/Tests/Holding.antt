-- ===== src/Tests/Holding.antt =====
-- `Acquire` and `Unlock` at a lock server in memory.
use dp_mongodb.Base.{ℕ, ◌≤◌, ◌≡◌, ◌≢◌, refl, String, none, some, arith}
use dp_mongodb.Lock.Holding.{acquire_holds, unlock_releases}
use dp_mongodb.Lock.Acquire.{before_attempt}
use dp_mongodb.Lock.Ids.{lock-injective}
use dp_mongodb.Lock.{default_settings, released, acquire, unlock, lock, unlock_once}
use dp_mongodb.Lock.Retry.{retry}
use dp_mongodb.Lock.Decimal.{decimal}
use dp_mongodb.Tests.LockServer.{memory, memory_laws, films}

abbrev empty : memory.State
empty = ((λ n. none), 5)

abbrev later : memory.State
later = ((λ n. none), 1_000_000_005)

abbrev locked : memory.State
locked = (lock memory films "x" empty).1

acquired : acquire memory default_settings films "x" empty ≡ some (("films-x-5", none), locked)
unfolding acquire retry lock decimal
acquired = refl

acquire_holds_example :
    (locked.0 "films-x" ≡ some "films-x-5")
    × (k : ℕ) × (k ≤ 10)
    × ((before_attempt memory default_settings films "x" k empty).0 "films-x" ≡ none)
acquire_holds_example =
    acquire_holds memory memory_laws default_settings films "x" "films-x-5" empty locked acquired

released_at_once :
    unlock memory default_settings "films-x-5" locked
    ≡ some (released, (memory.unlock "films-x-5" locked).1)
unfolding unlock retry unlock_once
released_at_once = refl

unlock_releases_example : (memory.unlock "films-x-5" locked).1.0 "films-x" ≢ some "films-x-5"
unlock_releases_example =
    unlock_releases memory memory_laws default_settings "films-x-5" "films-x" locked
      (memory.unlock "films-x-5" locked).1 released_at_once

lock-injective_example : (◌≡◌ {A = String} "x" "x") × (◌≡◌ {A = ℕ} 5 5)
unfolding lock
lock-injective_example =
    lock-injective memory films "x" "x" empty later (omega arith) (omega arith) refl
