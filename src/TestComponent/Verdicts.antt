-- ===== src/TestComponent/Verdicts.antt =====
-- How a step ends after an assertion.
use dp_mongodb.Base.{
  ◌≡◌, ◌≢◌, ◌↔◌, refl, ap, inl, inr, Bool, true, false, Option, none, some, if◌then◌else◌,
  Option-cases,
}
use dp_mongodb.Errors.{Err}
use dp_mongodb.TestComponent.Programs.{Outcome, ok, err, ◌>>=◌, ◌>>◌, get, modify, return_err}
use dp_mongodb.TestComponent.{Toolkit, Component, assert, step_error}

-- What is documented of `ErrorFeature`: a fresh one has no error, and one that an assertion has
-- failed on has one.
pub record ReportsFailure (T : Toolkit) : Type 0 where
  pub step_error-fresh : T.step_error T.fresh ≡ none
  pub step_error-errorf : (x : T.Feature) → T.step_error (T.errorf x) ≢ none

abbrev pub verdict : Option Err → Outcome (Unit {0})
verdict none = ok tt
verdict (some e) = err e

module _ (T : Toolkit) where
  pub verdict-ok :
      (R : ReportsFailure T) (b : Bool) (x : T.Feature)
      → T.step_error x ≡ none
      → (verdict (T.step_error (if b then x else T.errorf x)) ≡ ok tt) ↔ (b ≡ true)
  verdict-ok R true x h = (λ _. refl, λ _. ap verdict h)
  verdict-ok R false x h = elim (Option-cases (T.step_error (T.errorf x))) [
    | inl e ↦ absurd (R.step_error-errorf x e)
    | inr (y, e) ↦ (λ q. absurd (cc), λ q. absurd cc)
  ]

  return_err-verdict :
      {S : Type 0} (e : Option Err) (w : Component T × S) → (return_err e w).0 ≡ verdict e
  unfolding return_err
  return_err-verdict none w = refl
  return_err-verdict (some e) w = refl

  -- An assertion, and the end of a step, where nothing has failed before.
  pub asserted-ok :
      {S : Type 0} (R : ReportsFailure T) (b : Bool) (w : Component T × S)
      → T.step_error w.0.error_feature ≡ none
      → (((assert T b >> step_error T) w).0 ≡ ok tt) ↔ (b ≡ true)
  unfolding assert modify step_error get ◌>>=◌
  asserted-ok R b w h = rw (return_err-verdict _ _) (verdict-ok R b w.0.error_feature h)

  return_err-state : {S : Type 0} (e : Option Err) (w : Component T × S) → (return_err e w).1 ≡ w
  unfolding return_err
  return_err-state none w = refl
  return_err-state (some e) w = refl

  pub asserted-server :
      {S : Type 0} (b : Bool) (w : Component T × S) → ((assert T b >> step_error T) w).1.1 ≡ w.1
  unfolding assert modify step_error get ◌>>=◌
  asserted-server b w = ap (λ v. v.1) (return_err-state _ _)
