-- ===== src/Tests/LockServer.antt =====
-- A lock server in memory, which keeps the laws.
use Prim.Native.Nat.{◌%◌}
use text.Mathlib.TextEquality.{eq_iff}
use dp_mongodb.Base.{
  ℕ, ◌+◌, ◌≡◌, ◌≢◌, ◌⊎◌, inl, inr, refl, String, Bool, true, false, Option, none, some, arith,
  if◌then◌else◌, Option-cases, Bool-cases, ap, ◌∙◌,
}
use dp_mongodb.Base.Text.{str_eq}
use dp_mongodb.Errors.{named, already_locked}
use dp_mongodb.Lock.{World, Lock, ttl}
use dp_mongodb.Lock.Retry.{timer_fired}
use dp_mongodb.Lock.Server.{IsLockServer}

abbrev has_id : String → Option String → Bool
has_id id none = false
has_id id (some x) = str_eq x id

abbrev granted_at : (String → Option String) → String → Bool
granted_at held name = elim (held name) [ none ↦ true | some x ↦ false ]

-- The locks, and the time in nanoseconds, of which `GenerateTimeID` gives those within the second.
abbrev pub memory : World
memory = record {
  State = (String → Option String) × ℕ;
  x_lock = λ name id ttl s.
      if granted_at s.0 name
      then (none, ((λ n. if str_eq n name then some id else s.0 n), s.1))
      else (some (named already_locked), s);
  unlock = λ id s. (none, ((λ n. if has_id id (s.0 n) then none else s.0 n), s.1));
  generate_time_id = λ s. (s.1 % 1_000_000_000, s);
  wait = λ period s. (timer_fired, (s.0, s.1 + period));
}

pub granted_free_memory :
    (name id : String) (s : memory.State) → (memory.x_lock name id ttl s).0 ≡ none → s.0 name ≡ none
granted_free_memory name id s e = ground (arith, e)

pub granted_held_memory :
    (name id : String) (s : memory.State)
    → (memory.x_lock name id ttl s).0 ≡ none
    → (memory.x_lock name id ttl s).1.0 name ≡ some id
granted_held_memory name id s e = elim (Bool-cases (granted_at s.0 name)) [
  | inl free ↦ rw (free, (eq_iff name name).1 refl) refl
  | inr taken ↦ absurd (cc (rw taken at e))
]

pub x_lock_only_memory :
    (name id n : String) (s : memory.State)
    → ((memory.x_lock name id ttl s).1.0 n ≡ s.0 n)
      ⊎ ((n ≡ name) × (s.0 n ≡ none) × ((memory.x_lock name id ttl s).1.0 n ≡ some id))
x_lock_only_memory name id n s = elim (Bool-cases (granted_at s.0 name)) [
  | inl free ↦ elim (Bool-cases (str_eq n name)) [
    | inl same ↦
        let e : n ≡ name = (eq_iff n name).0 same in
        rw (free, same) (inr (e, ap s.0 e ∙ ground (arith, free), refl))
    | inr other ↦ rw (free, other) (inl refl)
  ]
  | inr taken ↦ rw taken (inl refl)
]

pub unlock_only_memory :
    (id n : String) (s : memory.State)
    → ((memory.unlock id s).1.0 n ≡ s.0 n)
      ⊎ ((s.0 n ≡ some id) × ((memory.unlock id s).1.0 n ≡ none))
unlock_only_memory id n s = elim (Option-cases (s.0 n)) [
  | inl free ↦ rw free (inl refl)
  | inr (x, taken) ↦ elim (Bool-cases (str_eq x id)) [
    | inl same ↦ rw (taken, same) (inr (ap some ((eq_iff x id).0 same), refl))
    | inr other ↦ rw (taken, other) (inl refl)
  ]
]

pub unlocked_memory : (id n : String) (s : memory.State) → (memory.unlock id s).1.0 n ≢ some id
unlocked_memory id n s e = elim (Option-cases (s.0 n)) [
  | inl free ↦ cc (rw free at e)
  | inr (x, taken) ↦ elim (Bool-cases (str_eq x id)) [
    | inl same ↦ cc (rw (taken, same) at e)
    | inr other ↦ ground (arith, eq_iff x id, rw (taken, other) at e)
  ]
]

abbrev pub memory_laws : IsLockServer memory
memory_laws = record {
  held_by = λ s n. s.0 n;
  held_by-generate_time_id = λ s n. refl;
  granted_free = granted_free_memory;
  granted_held = granted_held_memory;
  x_lock_only = x_lock_only_memory;
  unlock_only = unlock_only_memory;
  unlocked = λ id n s e. unlocked_memory id n s;
}

abbrev pub films : Lock
films = record { resource = "films" }
