-- ===== src/TestComponent/Safety/Results.antt =====
-- The steps that insert documents, and those that look at the results that are kept.
use dp_mongodb.Base.{◌≡◌, inl, inr, refl, String, Bool, true, Option, none, some, List, [], ◌∷◌}
use dp_mongodb.Base.Int.{ℤ}
use dp_mongodb.Errors.{Err}
use dp_mongodb.Bson.{Value}
use dp_mongodb.Mongo.{DriverCollection, answer}
use dp_mongodb.Collection.Types.{CollectionUpdateResult, CollectionInsertManyResult}
use dp_mongodb.Collection.Paging.{Reply-cases}
use dp_mongodb.Collection.Write as Write
use dp_mongodb.Collection.Settled.{wrap_mongo_error-some}
use dp_mongodb.TestComponent.Programs.{Program, ◌>>=◌, must_be, modify, try, return_err}
use dp_mongodb.TestComponent.Ready.{Known, is_enough}
use dp_mongodb.TestComponent.{DataModel, Toolkit, Component, to_value}
use dp_mongodb.TestComponent.Triples.{Triple, Keeps, Keeps-bind, Keeps-must_be}
use dp_mongodb.TestComponent.Has.{Has, AllInt32, Present, PresentIds, keeps_rules, Triple-must_be}
use dp_mongodb.TestComponent.Writes.{insert_records, first_two}
use dp_mongodb.TestComponent.Transaction.{Sessions, run_transaction_step}
use dp_mongodb.TestComponent.Results.{
  modified_count_with_id, modified_count, deleted_records, read_ids, inserted_records,
  test_receive_err_no_document_found_error, test_must_did_not_return_error,
}
use dp_mongodb.TestComponent.Safety.Settled.{Delivers, delivered-Triple}

Present-some :
    {A : Type 0} {b : Bool} {o : Option A}
    → b ≡ true
    → Present b o
    → (a : A) × (o ≡ some a) × Unit {0}
Present-some e = rw e λ (a, p). (a, p, tt)

PresentIds-some :
    (T : Toolkit) {b : Bool} {o : Option CollectionInsertManyResult}
    → b ≡ true
    → PresentIds T b o
    → (r : CollectionInsertManyResult) × (o ≡ some r) × AllInt32 T r.inserted_ids
PresentIds-some T e = rw e λ x. x

-- The driver answers an insertion of two records with ids that are `int32` values.
abbrev pub GivesInt32 : (T : Toolkit) (C : DriverCollection) → C.Context → Type 0
GivesInt32 T C ctx =
    (r q : DataModel) (s : C.State) (ids : List Value)
    → (C.insert_many ctx (to_value r ∷ to_value q ∷ []) s).0 ≡ answer ids
    → AllInt32 T ids

module _ (T : Toolkit) (C : DriverCollection) (ctx : C.Context) (k : Known) where
  abbrev K : Known → Component T × C.State → Type 0
  K = Has T C.State

  updated_there :
      k.updated ≡ true
      → (w : Component T × C.State) → K k w
      → (r : CollectionUpdateResult) × (w.0.update_result ≡ some r) × Unit {0}
  updated_there e w x = Present-some e x.update_result

  pub modified_count_with_id-Keeps :
      k.updated ≡ true → (a b c d : ℤ) → Keeps (K k) (modified_count_with_id T C.State a b c d)
  unfolding modified_count_with_id
  modified_count_with_id-Keeps e a b c d =
      Triple-must_be T C.State k (λ m. m.update_result) (λ r. Unit {0}) (updated_there e)
        λ r _. search keeps_rules depth 20

  pub modified_count-Keeps :
      k.updated ≡ true → (a b c : ℤ) → Keeps (K k) (modified_count T C.State a b c)
  unfolding modified_count
  modified_count-Keeps e a b c =
      Triple-must_be T C.State k (λ m. m.update_result) (λ r. Unit {0}) (updated_there e)
        λ r _. search keeps_rules depth 20

  pub deleted_records-Keeps : k.deleted ≡ true → (n : ℤ) → Keeps (K k) (deleted_records T C.State n)
  unfolding deleted_records
  deleted_records-Keeps e n =
      Triple-must_be T C.State k (λ m. m.delete_result) (λ r. Unit {0})
        (λ w x. Present-some e x.delete_result) λ r _. search keeps_rules depth 20

  read_ids-Keeps : (vs : List Value) → AllInt32 T vs → Keeps (K k) (read_ids T C.State vs)
  unfolding read_ids
  read_ids-Keeps [] h = search keeps_rules
  read_ids-Keeps (v ∷ vs) (h, hs) =
      Keeps-bind (Keeps-must_be (K k) _ h)
        λ i. Keeps-bind (read_ids-Keeps vs hs) λ is. search keeps_rules

  pub inserted_records-Keeps :
      k.inserted ≡ true → (j : String) → Keeps (K k) (inserted_records T C.State j)
  unfolding inserted_records
  inserted_records-Keeps e j = Keeps-bind (search keeps_rules) λ expected.
      Triple-must_be T C.State k (λ m. m.insert_result) (λ r. AllInt32 T r.inserted_ids)
        (λ w x. PresentIds-some T e x.insert_result)
        λ r h. Keeps-bind (read_ids-Keeps r.inserted_ids h) λ actual. search keeps_rules depth 20

  pub test_receive_err_no_document_found_error-Keeps :
      Keeps (K k) (test_receive_err_no_document_found_error T C.State)
  unfolding test_receive_err_no_document_found_error
  test_receive_err_no_document_found_error-Keeps = search keeps_rules depth 20

  pub test_must_did_not_return_error-Keeps : Keeps (K k) (test_must_did_not_return_error T C.State)
  unfolding test_must_did_not_return_error
  test_must_did_not_return_error-Keeps = search keeps_rules depth 20

  -- Two records are read, or none can be.
  enough :
      {Q : Component T × C.State → Type 0}
      (f : List Value → Program (Component T × C.State) (Unit {0}))
      (x : List DataModel × Option Err)
      → is_enough x ≡ true
      → ((r q : DataModel) → Triple (K k) (f (to_value r ∷ to_value q ∷ [])) λ _. Q)
      → Triple (K k) (try x >>= λ rs. must_be (first_two rs) >>= f) λ _. Q
  unfolding ◌>>=◌ try must_be
  enough f (rs, some e) h g = record { at = λ w x. tt }
  enough f ((r ∷ q ∷ rs), none) h g = record { at = λ w x. (g r q).at w x }
  enough f ((r ∷ []), none) h g = absurd cc
  enough f ([], none) h g = absurd cc

  insert_many-Delivers :
      GivesInt32 T C ctx
      → (r q : DataModel) (s : C.State)
      → Delivers
          (λ x. AllInt32 T x.inserted_ids)
          (Write.insert_many C ctx (to_value r ∷ to_value q ∷ []) s).0
  unfolding Write.insert_many
  insert_many-Delivers gives r q s =
      elim (Reply-cases (C.insert_many ctx (to_value r ∷ to_value q ∷ []) s).0) [
        | inl (ids, e) ↦ rw (e, Write.insert_many) (gives r q s ids e)
        | inr (x, e) ↦ let (y, p) = wrap_mongo_error-some x in rw (e, Write.insert_many, p) tt
      ]

  pub insert_records-Triple :
      GivesInt32 T C ctx
      → (j : String) → is_enough (T.unmarshal_records j) ≡ true
      → Triple (K k) (insert_records T C ctx j) λ _. K (record k { inserted = true })
  unfolding insert_records ◌>>=◌ modify return_err
  insert_records-Triple gives j h = enough _ _ h λ r q.
      delivered-Triple T C ctx k (λ x. AllInt32 T x.inserted_ids) _ _
        (insert_many-Delivers gives r q)
        (λ a y. record {
          at = λ w x. record {
            find = x.find;
            update_result = x.update_result;
            delete_result = x.delete_result;
            insert_result = (a, refl, y);
          };
        })
        λ e. record { at = λ w x. tt }

  pub run_transaction_step-Keeps :
      (D : Sessions C) (sprintf : String → Err → String) (interference : String)
      → Keeps (K k) (run_transaction_step T C D ctx sprintf interference)
  unfolding run_transaction_step
  run_transaction_step-Keeps D sprintf interference = search keeps_rules depth 20
