-- ===== src/TestComponent/Has.antt =====
-- What is known of the component while a scenario runs, and which parts of steps keep it.
use dp_mongodb.Base.{◌≡◌, String, Bool, true, false, Option, some, List, [], ◌∷◌}
use dp_mongodb.Base.Int.{ℤ}
use dp_mongodb.Bson.{Value, str}
use dp_mongodb.Collection.Types.{CollectionInsertManyResult}
use dp_mongodb.TestComponent.Programs.{Program, ◌>>=◌, must_be, get, modify, call}
use dp_mongodb.TestComponent.Ready.{Asked, unasked, filter, name, Known}
use dp_mongodb.TestComponent.{Find, Toolkit, Component, assert, step_error}
use dp_mongodb.TestComponent.Triples.{
  Leaves, Triple, Keeps, Keeps-bind, Keeps-pure, Keeps-return_err, Keeps-try, Keeps-from_reply,
}

-- The pending query is there, and is what was asked.
abbrev pub Asks : Asked → Option Find → Type 0
Asks unasked f = Unit {0}
Asks filter f = (g : Find) × (f ≡ some g)
Asks name f = (g : Find) × (n : String) × (f ≡ some g) × (g.query ≡ str n)

-- If it is known to be there, it is.
abbrev pub Present : {A : Type 0} → Bool → Option A → Type 0
Present true o = (a : _) × (o ≡ some a)
Present false o = Unit {0}

module _ (T : Toolkit) where
  abbrev pub AllInt32 : List Value → Type 0
  AllInt32 [] = Unit {0}
  AllInt32 (v ∷ vs) = ((n : ℤ) × (T.as_int32 v ≡ some n)) × AllInt32 vs

  -- The ids are there too, and are `int32` values.
  abbrev pub PresentIds : Bool → Option CollectionInsertManyResult → Type 0
  PresentIds true o = (r : _) × (o ≡ some r) × AllInt32 r.inserted_ids
  PresentIds false o = Unit {0}

module _ (T : Toolkit) (S : Type 0) where
  pub record Has (k : Known) (w : Component T × S) : Type 0 where
    pub find : Asks k.asked w.0.find
    pub update_result : Present k.updated w.0.update_result
    pub delete_result : Present k.deleted w.0.delete_result
    pub insert_result : PresentIds T k.inserted w.0.insert_result

module _ (T : Toolkit) (S : Type 0) (k : Known) where
  abbrev pub There : Component T × S → Type 0
  There = Has T S k

  pub Keeps-get : Keeps There get
  unfolding get
  Keeps-get = record { at = λ w x. x }

  pub Keeps-call : {A : Type 0} (f : S → A × S) → Keeps There (call f)
  unfolding call
  Keeps-call f = record {
    at = λ w x. record {
      find = x.find;
      update_result = x.update_result;
      delete_result = x.delete_result;
      insert_result = x.insert_result;
    };
  }

  pub Keeps-assert : (b : Bool) → Keeps There (assert T b)
  unfolding assert modify
  Keeps-assert b = record {
    at = λ w x. record {
      find = x.find;
      update_result = x.update_result;
      delete_result = x.delete_result;
      insert_result = x.insert_result;
    };
  }

  pub Keeps-step_error : Keeps There (step_error T)
  unfolding step_error
  Keeps-step_error = search (Keeps-bind, Keeps-get, Keeps-return_err)

  -- A part of a step that reads the component and follows a pointer of it that is there.
  pub Triple-must_be :
      {A B : Type 0} {Q : B → Component T × S → Type 0} {f : A → Program (Component T × S) B}
      (field : Component T → Option A) (F : A → Type 0)
      → ((w : Component T × S) → There w → (a : A) × (field w.0 ≡ some a) × F a)
      → ((a : A) → F a → Triple There (f a) Q)
      → Triple There (get >>= λ m. must_be (field m) >>= f) Q
  unfolding get ◌>>=◌ must_be
  Triple-must_be field F there h = record {
    at = λ w x. let (a, e, y) = there w x in rw e ((h a y).at w x);
  }

pub ruleset keeps_rules = (
  Keeps-bind, Keeps-pure, Keeps-return_err, Keeps-try, Keeps-from_reply, Keeps-get, Keeps-call,
  Keeps-assert, Keeps-step_error,
)
