-- ===== src/TestComponent/Triples.antt =====
-- What holds before and after a program: where the state has the first property, the program does
-- not panic, and if it goes on with a value, value and state have the second.
use dp_mongodb.Base.{◌≡◌, Option, some, none}
use dp_mongodb.Errors.{Err}
use dp_mongodb.TestComponent.Programs.{
  Outcome, ok, err, panic, Program, pure, then_run, ◌>>=◌, return_err, try, must_be, from_reply,
}
use dp_mongodb.Mongo.{Reply, answer, failed}

abbrev pub Leaves : {W A : Type 0} → (A → W → Type 0) → Outcome A × W → Type 0
Leaves Q (ok a, w) = Q a w
Leaves Q (err e, w) = Unit {0}
Leaves Q (panic, w) = ⊥

pub record Triple {W A : Type 0} (P : W → Type 0) (p : Program W A) (Q : A → W → Type 0)
    : Type 0 where
  pub at : (w : W) → P w → Leaves Q (p w)

-- The program changes nothing that matters.
abbrev pub Keeps : {W A : Type 0} → (W → Type 0) → Program W A → Type 0
Keeps P p = Triple P p λ _. P

then_run-Leaves :
    {W A B : Type 0} {Q : A → W → Type 0} {R : B → W → Type 0} (r : Outcome A × W)
    (f : A → Program W B)
    → Leaves Q r
    → ((a : A) → Triple (Q a) (f a) R)
    → Leaves R (then_run r f)
then_run-Leaves (ok a, w) f h g = (g a).at w h
then_run-Leaves (err e, w) f h g = tt
then_run-Leaves (panic, w) f h g = absurd h

pub Triple-bind :
    {W A B : Type 0} {P : W → Type 0} {Q : A → W → Type 0} {R : B → W → Type 0} {p : Program W A}
    {f : A → Program W B}
    → Triple P p Q
    → ((a : A) → Triple (Q a) (f a) R)
    → Triple P (p >>= f) R
unfolding ◌>>=◌
Triple-bind {p = p} {f} h g = record { at = λ w x. then_run-Leaves (p w) f (h.at w x) g }

pub Keeps-bind :
    {W A B : Type 0} {P : W → Type 0} {R : B → W → Type 0} {p : Program W A} {f : A → Program W B}
    → Keeps P p
    → ((a : A) → Triple P (f a) R)
    → Triple P (p >>= f) R
Keeps-bind = Triple-bind

module _ {W : Type 0} (P : W → Type 0) where
  pub Keeps-pure : {A : Type 0} (a : A) → Keeps P (pure a)
  unfolding pure
  Keeps-pure a = record { at = λ w x. x }

  pub Keeps-return_err : (e : Option Err) → Keeps P (return_err e)
  unfolding return_err
  Keeps-return_err none = record { at = λ w x. x }
  Keeps-return_err (some e) = record { at = λ w x. tt }

  pub Keeps-try : {A : Type 0} (x : A × Option Err) → Keeps P (try x)
  unfolding try
  Keeps-try (a, none) = record { at = λ w x. x }
  Keeps-try (a, some e) = record { at = λ w x. tt }

  pub Keeps-must_be : {A : Type 0} (o : Option A) → (a : A) × (o ≡ some a) → Keeps P (must_be o)
  unfolding must_be
  Keeps-must_be o (a, e) = rw e (record { at = λ w x. x })

  pub Keeps-from_reply : {A : Type 0} (r : Reply A) → Keeps P (from_reply r)
  unfolding from_reply
  Keeps-from_reply (answer a) = record { at = λ w x. x }
  Keeps-from_reply (failed e) = record { at = λ w x. tt }
