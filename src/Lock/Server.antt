-- ===== src/Lock/Server.antt =====
-- What mongo-lock documents of its exclusive locks, as laws of a world, and what one call of `Lock`
-- or of the client's `Unlock` does to them.
use dp_mongodb.Base.{◌≡◌, ◌≢◌, ◌⊎◌, refl, sym, ◌∙◌, String, Option, none, some, arith}
use dp_mongodb.Lock.{World, Lock, ttl, lock, unlock_once, resource_name, lock_id_at}

pub record IsLockServer (W : World) : Type 0 where
  -- the id of the lock on a resource name, until it is unlocked or purged
  pub held_by : W.State → String → Option String
  pub held_by-generate_time_id :
      (s : W.State) (n : String) → held_by (W.generate_time_id s).1 n ≡ held_by s n
  -- a lock is granted on a name on which there is none
  pub granted_free :
      (name id : String) (s : W.State) → (W.x_lock name id ttl s).0 ≡ none → held_by s name ≡ none
  pub granted_held :
      (name id : String) (s : W.State)
      → (W.x_lock name id ttl s).0 ≡ none
      → held_by (W.x_lock name id ttl s).1 name ≡ some id
  -- whatever the answer is, nothing else changes; after a failure the lock may be there or not
  pub x_lock_only :
      (name id n : String) (s : W.State)
      → (held_by (W.x_lock name id ttl s).1 n ≡ held_by s n)
        ⊎ ((n ≡ name) × (held_by s n ≡ none) × (held_by (W.x_lock name id ttl s).1 n ≡ some id))
  -- unlocking takes no other lock away
  pub unlock_only :
      (id n : String) (s : W.State)
      → (held_by (W.unlock id s).1 n ≡ held_by s n)
        ⊎ ((held_by s n ≡ some id) × (held_by (W.unlock id s).1 n ≡ none))
  pub unlocked :
      (id n : String) (s : W.State)
      → (W.unlock id s).0 ≡ none
      → held_by (W.unlock id s).1 n ≢ some id

module _ (W : World) (L : IsLockServer W) where
  open W use {State}
  open L use {held_by}

  pub lock_granted :
      (l : Lock) (id : String) (s : State)
      → (lock W l id s).0.1 ≡ none
      → (held_by s (resource_name l id) ≡ none)
        × (held_by (lock W l id s).1 (resource_name l id) ≡ some (lock W l id s).0.0)
  unfolding lock
  lock_granted l id s e =
      let t = (W.generate_time_id s).1 in
      (
        sym (L.held_by-generate_time_id s (resource_name l id)) ∙ L.granted_free _ _ t e,
        L.granted_held _ _ t e,
      )

  pub lock-lock_id_at :
      (l : Lock) (id : String) (s : State)
      → (lock W l id s).0.0 ≡ lock_id_at l id (W.generate_time_id s).0
  unfolding lock
  lock-lock_id_at l id s = refl

  -- A call of `Lock` takes no lock away.
  pub lock_keeps :
      (l : Lock) (id n x : String) (s : State)
      → held_by s n ≡ some x
      → held_by (lock W l id s).1 n ≡ some x
  unfolding lock
  lock_keeps l id n x s e =
      let kept = L.held_by-generate_time_id s n in
      ground (
        arith,
        L.x_lock_only (resource_name l id) (lock_id_at l id (W.generate_time_id s).0) n
            (W.generate_time_id s).1,
      )

  -- A call of `Unlock` takes away no lock that has another id.
  pub unlock_keeps :
      (id n x : String) (s : State)
      → held_by s n ≡ some x
      → x ≢ id
      → held_by (unlock_once W id s).1 n ≡ some x
  unfolding unlock_once
  unlock_keeps id n x s e other = ground (arith, L.unlock_only id n s)
