-- ===== src/Lock/Retry.antt =====
-- The loop that `Lock.Acquire` and `Lock.Unlock` share: attempts with a wait between two of them, a
-- limit on the retries, and an end when the closer channel is closed.
use dp_mongodb.Base.{
  ℕ, zero, suc, ◌+◌, ◌≤◌, ◌<◌, ◌≡◌, refl, Bool, true, false, Option, none, some, not, arith,
  if◌then◌else◌, ◌⊎◌, inl, inr, Bool-cases, sym, ap, ◌∙◌, dec_lt,
}
use mathlib.Core.Path.{subst}
use native.Mathlib.Nat.{add-zero}
use dp_mongodb.Base.Int.{ℤ, pos, pos_part, leb_ℤ, ◌≤ℤ◌}

-- What ends a `select` on the timer and the closer channel.
pub data Wait : Type 0 where
  timer_fired closer_closed : Wait

module _ {S R : Type 0} (attempt : S → R × S) (fails : R → Bool) (exhausted aborted : R)
    (wait : S → Wait × S) (max_retries : ℤ) where
  -- The body of the `for`, with `retries` retries behind it.
  retry_loop : ℕ → ℕ → S → Option (R × S)
  retry_loop zero retries s = none
  retry_loop (suc fuel) retries s =
      let (r, t) = attempt s in
      let (event, u) = wait t in
      let next = retry_loop fuel (retries + 1) u in
      if not (fails r)
      then some (r, t)
      else if leb_ℤ max_retries (pos retries)
      then some (exhausted, t)
      else elim event [ timer_fired ↦ next | closer_closed ↦ some (aborted, u) ]

  unfoldable pub retry : S → Option (R × S)
  unfolding retry_loop
  retry s = retry_loop (suc (pos_part max_retries)) 0 s

  -- The state before an attempt, if all attempts before it fail and all waits end by the timer.
  unfoldable pub state_at : ℕ → S → S
  state_at zero s = s
  state_at (suc k) s = state_at k (wait (attempt s).1).1

  -- After this attempt the loop goes on.
  abbrev pub GoesOn : S → Type 0
  GoesOn s = (fails (attempt s).0 ≡ true) × ((wait (attempt s).1).0 ≡ timer_fired)

  -- How the loop ends with the attempt made at `s`, the one with number `k` from 0 on.
  pub data EndsAt (k : ℕ) (s : S) (out : R × S) : Type 0 where
    settled : fails (attempt s).0 ≡ false → out ≡ attempt s → EndsAt k s out
    at_limit :
        fails (attempt s).0 ≡ true
        → max_retries ≤ℤ pos k
        → out ≡ (exhausted, (attempt s).1)
        → EndsAt k s out
    on_closing :
        fails (attempt s).0 ≡ true
        → ¬ (max_retries ≤ℤ pos k)
        → (wait (attempt s).1).0 ≡ closer_closed
        → out ≡ (aborted, (wait (attempt s).1).1)
        → EndsAt k s out

  pub record Ran (s : S) (out : R × S) : Type 0 where
    pub last : ℕ
    pub bounded : last ≤ pos_part max_retries
    pub before : (j : ℕ) → j < last → GoesOn (state_at j s)
    pub ends : EndsAt last (state_at last s) out

  -- The loop from some number of retries on.
  record RanFrom (retries : ℕ) (s : S) (out : R × S) : Type 0 where
    more : ℕ
    bounded : retries + more ≤ pos_part max_retries
    before : (j : ℕ) → j < more → GoesOn (state_at j s)
    ends : EndsAt (retries + more) (state_at more s) out

  Wait-cases : (w : Wait) → (w ≡ timer_fired) ⊎ (w ≡ closer_closed)
  Wait-cases timer_fired = inl refl
  Wait-cases closer_closed = inr refl

  RanFrom-now :
      (retries : ℕ) (s : S) (out : R × S)
      → retries ≤ pos_part max_retries
      → EndsAt retries s out
      → RanFrom retries s out
  unfolding state_at
  RanFrom-now retries s out le e = record {
    more = 0;
    bounded = omega arith;
    before = λ j u. absurd (omega arith);
    ends = rw (add-zero retries) e;
  }

  GoesOn-from :
      (s : S) (more : ℕ)
      → GoesOn s
      → ((j : ℕ) → j < more → GoesOn (state_at j (wait (attempt s).1).1))
      → (j : ℕ) → j < suc more
      → GoesOn (state_at j s)
  unfolding state_at
  GoesOn-from s more now later zero u = now
  GoesOn-from s more now later (suc j) u = later j (omega arith)

  RanFrom-later :
      (retries : ℕ) (s : S) (out : R × S)
      → GoesOn s
      → RanFrom (retries + 1) (wait (attempt s).1).1 out
      → RanFrom retries s out
  unfolding state_at
  RanFrom-later retries s out now r = record {
    more = suc r.more;
    bounded = omega arith;
    before = GoesOn-from s r.more now r.before;
    ends = subst (λ k. EndsAt k (state_at r.more (wait (attempt s).1).1) out) (omega arith) r.ends;
  }

  retry_loop-RanFrom :
      (fuel retries : ℕ) (s : S)
      → pos_part max_retries < fuel + retries
      → retries ≤ pos_part max_retries
      → (out : R × S) × (retry_loop fuel retries s ≡ some out) × RanFrom retries s out
  unfolding retry_loop
  retry_loop-RanFrom zero retries s enough le = absurd (omega arith)
  retry_loop-RanFrom (suc fuel) retries s enough le = elim (Bool-cases (fails (attempt s).0)) [
    | inl failed ↦ elim (Bool-cases (leb_ℤ max_retries (pos retries))) [
      | inl limit ↦ (
        _,
        rw (failed, limit) refl,
        RanFrom-now retries s _ le (at_limit failed (ground arith) refl),
      )
      | inr below ↦ elim (Wait-cases (wait (attempt s).1).0) [
        | inl fired ↦
            let (out, run, r) =
              retry_loop-RanFrom fuel (retries + 1) (wait (attempt s).1).1 (omega arith)
                (ground arith) in
            (out, rw (failed, below, fired) run, RanFrom-later retries s out (failed, fired) r)
        | inr closed ↦ (
          _,
          rw (failed, below, closed) refl,
          RanFrom-now retries s _ le (on_closing failed (λ h. ground arith) closed refl),
        )
      ]
    ]
    | inr fine ↦ (_, rw fine refl, RanFrom-now retries s _ le (settled fine refl))
  ]

  -- The loop returns, and its fuel is enough.
  pub retry-Ran : (s : S) → (out : R × S) × (retry s ≡ some out) × Ran s out
  unfolding retry
  retry-Ran s =
      let (out, run, r) =
        retry_loop-RanFrom (suc (pos_part max_retries)) 0 s (omega arith) (omega arith) in
      (
        out,
        run,
        record {
          last = r.more;
          bounded = omega (arith, r.bounded);
          before = r.before;
          ends = subst (λ k. EndsAt k (state_at r.more s) out) (omega arith) r.ends;
        },
      )

  -- An attempt that ends the loop is not one after which it goes on.
  EndsAt-GoesOn :
      (k : ℕ) (s : S) (out : R × S) → k < pos_part max_retries → EndsAt k s out → ¬ GoesOn s
  EndsAt-GoesOn k s out u (settled fine e) g = cc (g.0)
  EndsAt-GoesOn k s out u (at_limit failed limit e) g = absurd (ground arith)
  EndsAt-GoesOn k s out u (on_closing failed below closed e) g = cc (g.1)

  EndsAt-unique : (k : ℕ) (s : S) (out out' : R × S) → EndsAt k s out → EndsAt k s out' → out ≡ out'
  EndsAt-unique k s out out' (settled a e) (settled b f) = e ∙ sym f
  EndsAt-unique k s out out' (settled a e) (at_limit b c f) = cc
  EndsAt-unique k s out out' (settled a e) (on_closing b c d f) = cc
  EndsAt-unique k s out out' (at_limit b c f) (settled a e) = cc
  EndsAt-unique k s out out' (at_limit b c f) (at_limit b' c' f') = f ∙ sym f'
  EndsAt-unique k s out out' (at_limit b c f) (on_closing b' c' d' f') = absurd (c' c)
  EndsAt-unique k s out out' (on_closing b c d f) (settled a e) = cc
  EndsAt-unique k s out out' (on_closing b c d f) (at_limit b' c' f') = absurd (c c')
  EndsAt-unique k s out out' (on_closing b c d f) (on_closing b' c' d' f') = f ∙ sym f'

  -- The loop ends with the first attempt that ends it.
  pub retry_at :
      (s : S) (k : ℕ) (out : R × S)
      → k ≤ pos_part max_retries
      → ((j : ℕ) → j < k → GoesOn (state_at j s))
      → EndsAt k (state_at k s) out
      → retry s ≡ some out
  retry_at s k out le before ends = elim (dec_lt r.last k) [
    | yes early ↦ absurd (EndsAt-GoesOn r.last _ _ (omega arith) r.ends (before r.last early))
    | no late ↦ elim (dec_lt k r.last) [
      | yes too_late ↦
          absurd (EndsAt-GoesOn k _ _ (omega (arith, r.bounded)) ends (r.before k too_late))
      | no same ↦
          let e : r.last ≡ k = omega arith in
          run
          ∙ ap some (
              EndsAt-unique k (state_at k s) found out
                (subst (λ n. EndsAt n (state_at n s) found) e r.ends) ends)
    ]
  ]
    where
      found : R × S
      found = (retry-Ran s).0

      run : retry s ≡ some found
      run = (retry-Ran s).1

      r : Ran s found
      r = (retry-Ran s).2
