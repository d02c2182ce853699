-- ===== src/TestComponent/Safety/Settled.antt =====
-- Calls of the collection's writing methods within a step.
use dp_mongodb.Base.{◌≡◌, refl, true, false, Option, none, some}
use dp_mongodb.Errors.{Err}
use dp_mongodb.Mongo.{DriverCollection}
use dp_mongodb.Collection.Types.{
  CollectionUpdateResult, CollectionDeleteResult, Return, returned, nil_dereference,
}
use dp_mongodb.Collection.Settled.{IsSettled}
use dp_mongodb.TestComponent.Programs.{
  Program, ◌>>=◌, must_be, modify, try, receive, call, return_err,
}
use dp_mongodb.TestComponent.Ready.{Known, is_record}
use dp_mongodb.TestComponent.{DataModel, Toolkit, Component}
use dp_mongodb.TestComponent.Triples.{Leaves, Triple, Keeps-bind}
use dp_mongodb.TestComponent.Has.{Has, keeps_rules, Keeps-call}
use dp_mongodb.TestComponent.Writes.{update_with, delete_with, must_update_with, must_delete_with}

-- A result with a property and no error, or no result and an error.
abbrev pub Delivers : {A : Type 0} → (A → Type 0) → Return A → Type 0
Delivers F (returned (some a) none) = F a
Delivers F (returned none (some e)) = Unit {0}
Delivers F _ = ⊥

IsSettled-Delivers : {A : Type 0} (r : Return A) → IsSettled r → Delivers (λ _. Unit {0}) r
IsSettled-Delivers (returned (some a) none) h = tt
IsSettled-Delivers (returned none (some e)) h = tt
IsSettled-Delivers (returned (some a) (some e)) h = absurd h
IsSettled-Delivers (returned none none) h = absurd h
IsSettled-Delivers nil_dereference h = absurd h

module _ (T : Toolkit) (C : DriverCollection) (ctx : C.Context) (k : Known) where
  abbrev K : Known → Component T × C.State → Type 0
  K = Has T C.State

  delivered-Leaves :
      {A : Type 0} (F : A → Type 0) {Q : Component T × C.State → Type 0}
      (f : Option A × Option Err → Program (Component T × C.State) (Unit {0})) (r : Return A)
      (w : Component T × C.State)
      → Delivers F r
      → ((a : A) → F a → Triple (K k) (f (some a, none)) λ _. Q)
      → ((e : Err) → Triple (K k) (f (none, some e)) λ _. Q)
      → K k w
      → Leaves (λ _. Q) ((receive r >>= f) w)
  unfolding receive ◌>>=◌
  delivered-Leaves F f (returned (some a) none) w h x y z = (x a h).at w z
  delivered-Leaves F f (returned none (some e)) w h x y z = (y e).at w z
  delivered-Leaves F f (returned (some a) (some e)) w h x y z = absurd h
  delivered-Leaves F f (returned none none) w h x y z = absurd h
  delivered-Leaves F f nil_dereference w h x y z = absurd h

  -- A method of the collection is called, which returns a result or an error.
  pub delivered-Triple :
      {A : Type 0} (F : A → Type 0) {Q : Component T × C.State → Type 0}
      (f : Option A × Option Err → Program (Component T × C.State) (Unit {0}))
      (write : C.State → Return A × C.State)
      → ((s : C.State) → Delivers F (write s).0)
      → ((a : A) → F a → Triple (K k) (f (some a, none)) λ _. Q)
      → ((e : Err) → Triple (K k) (f (none, some e)) λ _. Q)
      → Triple (K k) (call write >>= λ r. receive r >>= f) λ _. Q
  unfolding call ◌>>=◌
  delivered-Triple F f write delivers x y = record {
    at = λ w z.
        delivered-Leaves F f (write w.1).0 (w.0, (write w.1).1) (delivers w.1) x y
          ((Keeps-call T C.State k write).at w z);
  }

  settled-Triple :
      {A : Type 0} {Q : Component T × C.State → Type 0}
      (f : Option A × Option Err → Program (Component T × C.State) (Unit {0}))
      (write : C.State → Return A × C.State)
      → ((s : C.State) → IsSettled (write s).0)
      → ((a : A) → Triple (K k) (f (some a, none)) λ _. Q)
      → ((e : Err) → Triple (K k) (f (none, some e)) λ _. Q)
      → Triple (K k) (call write >>= λ r. receive r >>= f) λ _. Q
  settled-Triple f write settled x =
      delivered-Triple (λ _. Unit {0}) f write (λ s. IsSettled-Delivers _ (settled s)) λ a _. x a

  pub update_with-Triple :
      (write : C.State → Return CollectionUpdateResult × C.State)
      → ((s : C.State) → IsSettled (write s).0)
      → Triple (K k) (update_with T C ctx write) λ _. K (record k { updated = true })
  unfolding update_with ◌>>=◌ modify return_err
  update_with-Triple write settled =
      settled-Triple _ write settled
        (λ a. record {
          at = λ w x. record {
            find = x.find;
            update_result = (a, refl);
            delete_result = x.delete_result;
            insert_result = x.insert_result;
          };
        })
        λ e. record { at = λ w x. tt }

  pub delete_with-Triple :
      (write : C.State → Return CollectionDeleteResult × C.State)
      → ((s : C.State) → IsSettled (write s).0)
      → Triple (K k) (delete_with T C ctx write) λ _. K (record k { deleted = true })
  unfolding delete_with ◌>>=◌ modify return_err
  delete_with-Triple write settled =
      settled-Triple _ write settled
        (λ a. record {
          at = λ w x. record {
            find = x.find;
            update_result = x.update_result;
            delete_result = (a, refl);
            insert_result = x.insert_result;
          };
        })
        λ e. record { at = λ w x. tt }

  -- The methods of `Must`: an error is kept, and there may be no result.
  update_lost :
      (o : Option CollectionUpdateResult) (e : Option Err)
      → Triple
          (K k)
          (modify λ m. record m { update_result = o; must_error_result = e })
          λ _. K (record k { updated = false })
  unfolding modify
  update_lost o e = record {
    at = λ w x. record {
      find = x.find;
      update_result = tt;
      delete_result = x.delete_result;
      insert_result = x.insert_result;
    };
  }

  delete_lost :
      (o : Option CollectionDeleteResult) (e : Option Err)
      → Triple
          (K k)
          (modify λ m. record m { delete_result = o; must_error_result = e })
          λ _. K (record k { deleted = false })
  unfolding modify
  delete_lost o e = record {
    at = λ w x. record {
      find = x.find;
      update_result = x.update_result;
      delete_result = tt;
      insert_result = x.insert_result;
    };
  }

  pub must_update_with-Triple :
      (write : C.State → Return CollectionUpdateResult × C.State)
      → ((s : C.State) → IsSettled (write s).0)
      → Triple (K k) (must_update_with T C ctx write) λ _. K (record k { updated = false })
  unfolding must_update_with
  must_update_with-Triple write settled =
      settled-Triple _ write settled (λ a. update_lost (some a) none) λ e. update_lost none (some e)

  pub must_delete_with-Triple :
      (write : C.State → Return CollectionDeleteResult × C.State)
      → ((s : C.State) → IsSettled (write s).0)
      → Triple (K k) (must_delete_with T C ctx write) λ _. K (record k { deleted = false })
  unfolding must_delete_with
  must_delete_with-Triple write settled =
      settled-Triple _ write settled (λ a. delete_lost (some a) none) λ e. delete_lost none (some e)

  -- The step reads a record, and then writes.
  pub reads :
      {A : Type 0} {f : A → Program (Component T × C.State) (Unit {0})}
      {Q : Component T × C.State → Type 0} (x : A × Option Err)
      → ((a : A) → Triple (K k) (f a) λ _. Q)
      → Triple (K k) (try x >>= f) λ _. Q
  reads x h = Keeps-bind (search keeps_rules) h

  -- The same of a record that must not be nil.
  pub reads_record :
      {Q : Component T × C.State → Type 0}
      (f : DataModel → Program (Component T × C.State) (Unit {0}))
      (x : Option DataModel × Option Err)
      → is_record x ≡ true
      → ((r : DataModel) → Triple (K k) (f r) λ _. Q)
      → Triple (K k) (try x >>= λ p. must_be p >>= f) λ _. Q
  unfolding ◌>>=◌ try must_be
  reads_record f (p, some e) h g = record { at = λ w x. tt }
  reads_record f (some r, none) h g = record { at = λ w x. (g r).at w x }
  reads_record f (none, none) h g = absurd cc
