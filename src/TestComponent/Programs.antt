-- ===== src/TestComponent/Programs.antt =====
-- Go code over some state, with errors that are returned, and with panics.
use dp_mongodb.Base.{Option, none, some}
use dp_mongodb.Errors.{Err}
use dp_mongodb.Mongo.{Reply, answer, failed}
use dp_mongodb.Collection.Types.{Return, returned, nil_dereference}

-- How a step, or a part of one, ends: it goes on with a value, returns an error, or panics.
pub data Outcome (A : Type 0) : Type 0 where
  ok : A → Outcome A
  err : Err → Outcome A
  panic : Outcome A

abbrev pub Program : Type 0 → Type 0 → Type 0
Program W A = W → Outcome A × W

unfoldable pub pure : {W A : Type 0} → A → Program W A
pure a w = (ok a, w)

abbrev pub then_run : {W A B : Type 0} → Outcome A × W → (A → Program W B) → Outcome B × W
then_run (ok a, w) f = f a w
then_run (err e, w) f = (err e, w)
then_run (panic, w) f = (panic, w)

infixl 5 ◌>>=◌ ◌>>◌
unfoldable pub ◌>>=◌ : {W A B : Type 0} → Program W A → (A → Program W B) → Program W B
◌>>=◌ p f w = then_run (p w) f

abbrev pub ◌>>◌ : {W A B : Type 0} → Program W A → Program W B → Program W B
p >> q = p >>= λ _. q

-- `return err`
unfoldable pub return_err : {W : Type 0} → Option Err → Program W (Unit {0})
return_err none w = (ok tt, w)
return_err (some e) w = (err e, w)

-- `if err != nil { return err }`, behind a call that returns a value and an error
unfoldable pub try : {W A : Type 0} → A × Option Err → Program W A
try (a, none) w = (ok a, w)
try (a, some e) w = (err e, w)

-- A value that may be missing, where the code does not look: a pointer that may be nil, a type
-- assertion, an index.
unfoldable pub must_be : {W A : Type 0} → Option A → Program W A
must_be (some a) w = (ok a, w)
must_be none w = (panic, w)

-- What a method of the collection returns.
unfoldable pub receive : {W A : Type 0} → Return A → Program W (Option A × Option Err)
receive (returned a e) w = (ok (a, e), w)
receive nil_dereference w = (panic, w)

-- A pointer and an error of the driver.
unfoldable pub from_reply : {W A : Type 0} → Reply A → Program W A
from_reply (answer a) w = (ok a, w)
from_reply (failed e) w = (err e, w)

-- The state is a component and the server.
unfoldable pub get : {M S : Type 0} → Program (M × S) M
get w = (ok w.0, w)

unfoldable pub modify : {M S : Type 0} → (M → M) → Program (M × S) (Unit {0})
modify f w = (ok tt, (f w.0, w.1))

-- A call at the server.
unfoldable pub call : {M S A : Type 0} → (S → A × S) → Program (M × S) A
call f w = let (a, t) = f w.1 in (ok a, (w.0, t))
