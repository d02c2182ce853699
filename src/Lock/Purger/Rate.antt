-- ===== src/Lock/Purger/Rate.antt =====
-- How often the purger purges.
use mathlib.Core.Path.{subst}
use dp_mongodb.Base.{ℕ, zero, suc, ◌+◌, ◌-◌, ◌*◌, ◌≤◌, ◌≡◌, refl, Bool, true, arith}
use dp_mongodb.Lock.Purger.{
  purging, selecting, purger_period, State, init, Step, pass, purge, fire, fire_late, tick,
  see_closed, stop, too_late, drain, close, close_again, wait_over, Reach, here, next,
}

-- The purges so far have taken their periods, all but the last one in full.
record Paced (start : ℕ) (s : State) : Type 0 where
  begun : s.loop ≡ purging → start + s.purges * purger_period ≤ s.now
  due : s.loop ≡ selecting → start + s.purges * purger_period ≤ s.fires_at
  sent : s.loop ≡ selecting → s.fired ≡ true → s.fires_at ≤ s.now
  bounded : start + s.purges * purger_period ≤ s.now + purger_period
  first : s.purges ≡ 0 → s.loop ≡ purging
  near : s.loop ≡ selecting → s.fires_at ≤ s.now + purger_period

module _ (o : Bool) (start : ℕ) where
  Step-Paced : {s t : State} → Step o s t → Paced start s → Paced start t
  Step-Paced pass v = ground arith
  Step-Paced (purge a) v = ground arith
  Step-Paced (fire a b) v = ground arith
  Step-Paced (fire_late a b) v = ground arith
  Step-Paced (tick a b) v = ground arith
  Step-Paced (see_closed a b) v = ground arith
  Step-Paced (stop a b) v = ground arith
  Step-Paced (too_late a b) v = ground arith
  Step-Paced (drain a b) v = ground arith
  Step-Paced (close i a b) v = ground arith
  Step-Paced (close_again i a b) v = ground arith
  Step-Paced (wait_over i a b) v = ground arith

  Reach-Paced : {s t : State} → Paced start s → Reach o s t → Paced start t
  Reach-Paced v here = v
  Reach-Paced v (next r st) = Step-Paced st (Reach-Paced v r)

  init-Paced : Paced start (init start)
  init-Paced = record {
    begun = λ e. omega arith;
    due = λ e. cc;
    sent = λ e f. cc;
    bounded = omega arith;
    first = λ e. refl;
    near = λ e. cc;
  }

  -- Time passes.
  passes : (n : ℕ) (s : State) → Reach o s (record s { now = n + s.now })
  passes zero s =
      let same : s.now ≡ 0 + s.now = omega arith in
      subst (λ (n : ℕ). Reach o s (record s { now = n })) same here
  passes (suc n) s =
      let same : suc (n + s.now) ≡ suc n + s.now = omega arith in
      subst (λ (m : ℕ). Reach o s (record s { now = m })) same (next (passes n s) pass)

  -- The next purge, where the period is over, or the timer has fired.
  purged_at :
      {s : State} (t : State)
      → Reach o s t
      → t.loop ≡ selecting
      → t.fires_at ≤ t.now
      → (u : State) × Reach o s u × (u.purges ≡ suc t.purges) × (u.now ≡ t.now)
  purged_at t r l h = (_, next (next (next r (fire l h)) (tick l refl)) (purge refl), refl, refl)

  next_purge :
      (s : State)
      → Paced start s
      → s.loop ≡ selecting
      → (t : State) × Reach o s t × (t.purges ≡ suc s.purges) × (t.now ≤ s.now + purger_period)
  next_purge s v l =
      let n = s.fires_at - s.now in
      let (u, r, e, q) = purged_at (record s { now = n + s.now }) (passes n s) l (omega arith) in
      let near = v.near l in (u, r, e, omega (arith, q, near))

  -- The purger purges before it first waits, and after that at most as often as `PurgerPeriod` fits
  -- into the time since the start; and wherever it waits, it can have purged again within a
  -- `PurgerPeriod`.
  pub purges_paced :
      {s : State}
      → Reach o (init start) s
      → (s.purges ≡ 0 → s.loop ≡ purging)
        × (start + s.purges * purger_period ≤ s.now + purger_period)
        × (s.loop ≡ selecting
            → (t : State) × Reach o s t
              × (t.purges ≡ suc s.purges)
              × (t.now ≤ s.now + purger_period))
  purges_paced r = let v = Reach-Paced init-Paced r in (v.first, v.bounded, next_purge _ v)
