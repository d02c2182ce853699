-- ===== src/Tests/Exclusion.antt =====
-- Processes at a lock server in memory.
use Prim.Native.Nat.{◌^◌}
use dp_mongodb.Base.{ℕ, ◌<◌, ◌≡◌, inl, refl, true, false, none, arith}
use dp_mongodb.Lock.{lock, unlock_once}
use dp_mongodb.Lock.Decimal.{decimal}
use dp_mongodb.Lock.Exclusion.{
  Claim, Status, holding, leaving, System, init, granted, expire, unlock, environment, Reach, here,
  next, IsNewTime, update,
}
use dp_mongodb.Lock.Exclusion.Laws.{mutual_exclusion}
use dp_mongodb.Tests.LockServer.{memory, memory_laws, films}

-- Nothing is locked, five nanoseconds after a full second.
abbrev start : System memory memory_laws films
start = init memory memory_laws films ((λ n. none), 5)

abbrev first : Claim
first = record { id = "x"; time = 5; expired = false }

abbrev one_holds : System memory memory_laws films
one_holds = record {
  server = (lock memory films "x" start.server).1;
  status = update start.status 0 (holding first);
}

none_claimed : IsNewTime start.status 5
none_claimed p c e = cc e

Reach-one_holds : Reach memory memory_laws films IsNewTime start one_holds
unfolding lock
Reach-one_holds = next here (granted 0 "x" refl refl none_claimed)

small_times : (s : memory.State) → (memory.generate_time_id s).0 < 2 ^ 64
small_times s = omega arith

mutual_exclusion_example : ◌≡◌ {A = ℕ} 0 0
mutual_exclusion_example =
    mutual_exclusion memory memory_laws films small_times ((λ n. none), 5) Reach-one_holds 0 0 first
      first refl refl refl refl refl

-- With no condition on time ids.
abbrev AnyTime : (ℕ → Status) → ℕ → Type 0
AnyTime status time = Unit {0}

abbrev late : Claim
late = record first { expired = true }

-- One second later the lock of the first process has expired and has been purged.
abbrev purged : System memory memory_laws films
purged = record {
  server = ((λ n. none), 1_000_000_005);
  status = update one_holds.status 0 (holding late);
}

abbrev two_hold : System memory memory_laws films
two_hold = record {
  server = (lock memory films "x" purged.server).1;
  status = update purged.status 1 (holding first);
}

-- The first process calls `Unlock`, with the id that is also that of the second one's lock.
abbrev unlocked_late : System memory memory_laws films
unlocked_late = record {
  server = (unlock_once memory "films-x-5" two_hold.server).1;
  status = update two_hold.status 0 (leaving late);
}

abbrev both_hold : System memory memory_laws films
both_hold = record {
  server = (lock memory films "x" unlocked_late.server).1;
  status = update unlocked_late.status 2 (holding first);
}

late_expired : (p : ℕ) (c : Claim) → purged.status p ≡ holding c → c.expired ≡ false → ⊥
late_expired p c e live = ground arith

-- Two processes hold the same resource id, and neither lock has expired.
exclusion_fails :
    Reach memory memory_laws films AnyTime start both_hold
    × (both_hold.status 1 ≡ holding first)
    × (both_hold.status 2 ≡ holding first)
unfolding lock unlock_once decimal
exclusion_fails =
    let r1 = next here (granted 0 "x" refl refl tt) in
    let r2 = next r1 (expire 0 first refl) in
    let r3 = next r2 (environment purged.server (λ p c e live. absurd (late_expired p c e live))) in
    let r4 = next r3 (granted 1 "x" refl refl tt) in
    let r5 = next r4 (unlock 0 late (inl refl)) in
    (next r5 (granted 2 "x" refl refl tt), refl, refl)
