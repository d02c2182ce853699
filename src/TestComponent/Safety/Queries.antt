-- ===== src/TestComponent/Safety/Queries.antt =====
-- The steps about queries, where the query that they need is pending.
use dp_mongodb.Base.{◌≡◌, ◌≢◌, refl, String, Option, some, List, [], ◌∷◌}
use dp_mongodb.Base.Int.{ℤ}
use dp_mongodb.Bson.{Value, str}
use dp_mongodb.Options.{FindOption}
use dp_mongodb.Mongo.{DriverCollection}
use dp_mongodb.TestComponent.Programs.{Program, ◌>>=◌, must_be, get, modify}
use dp_mongodb.TestComponent.Ready.{Asked, unasked, filter, name, Known}
use dp_mongodb.TestComponent.{DataModel, Find, Toolkit, Component}
use dp_mongodb.TestComponent.Triples.{Triple, Triple-bind, Keeps, Keeps-bind, Keeps-must_be}
use dp_mongodb.TestComponent.Has.{Has, Asks, keeps_rules, Triple-must_be}
use dp_mongodb.TestComponent.Queries.{
  ask, add_option, as_string, insert_each, inserted_these_records, find_records,
  should_receive_these_records, the_records_should_match, should_receive_no_records,
  should_receive_these_distinct_fields, count_records, find_with_id, distinct, find_one_record,
  test_find_all_error, test_find_one_error,
}

-- What was asked, of the query that is there.
abbrev Fits : Asked → Find → Type 0
Fits unasked f = ⊥
Fits filter f = Unit {0}
Fits name f = (n : String) × (f.query ≡ str n)

asked_found :
    (a : Asked) (o : Option Find) → a ≢ unasked → Asks a o → (f : Find) × (o ≡ some f) × Fits a f
asked_found unasked o h x = absurd (h refl)
asked_found filter o h (f, e) = (f, e, tt)
asked_found name o h (f, n, e, q) = (f, e, (n, q))

Fits-Asks :
    (a : Asked) (f : Find) (opts : List FindOption)
    → Fits a f
    → Asks a (some (record f { options = opts }))
Fits-Asks unasked f opts x = absurd x
Fits-Asks filter f opts x = (_, refl)
Fits-Asks name f opts (n, q) = (_, n, refl, q)

module _ (T : Toolkit) (C : DriverCollection) (ctx : C.Context) (k : Known) where
  abbrev K : Known → Component T × C.State → Type 0
  K = Has T C.State

  insert_each-Keeps : (rs : List DataModel) → Keeps (K k) (insert_each T C ctx rs)
  unfolding insert_each
  insert_each-Keeps [] = search keeps_rules
  insert_each-Keeps (r ∷ rs) =
      Keeps-bind (search keeps_rules)
        λ reply. Keeps-bind (search keeps_rules) λ id. insert_each-Keeps rs

  pub inserted_these_records-Keeps : (j : String) → Keeps (K k) (inserted_these_records T C ctx j)
  unfolding inserted_these_records
  inserted_these_records-Keeps j = search (keeps_rules, insert_each-Keeps) depth 20

  -- A step that reads the pending query.
  Triple-asked :
      {f : Find → Program (Component T × C.State) (Unit {0})}
      → k.asked ≢ unasked
      → ((g : Find) → Fits k.asked g → Keeps (K k) (f g))
      → Keeps (K k) (get >>= λ m. must_be m.find >>= f)
  Triple-asked asked =
      Triple-must_be T C.State k (λ m. m.find) (Fits k.asked)
        λ w x. asked_found k.asked w.0.find asked x.find

  pub should_receive_these_records-Keeps :
      k.asked ≢ unasked → (j : String) → Keeps (K k) (should_receive_these_records T C ctx j)
  unfolding should_receive_these_records
  should_receive_these_records-Keeps asked j = Triple-asked asked λ f _. search keeps_rules depth 20

  pub should_receive_no_records-Keeps :
      k.asked ≢ unasked → (n : ℤ) → Keeps (K k) (should_receive_no_records T C ctx n)
  unfolding should_receive_no_records
  should_receive_no_records-Keeps asked n = Triple-asked asked λ f _. search keeps_rules depth 20

  pub count_records-Keeps : k.asked ≢ unasked → (n : ℤ) → Keeps (K k) (count_records T C ctx n)
  unfolding count_records
  count_records-Keeps asked n = Triple-asked asked λ f _. search keeps_rules depth 20

  pub find_one_record-Keeps :
      k.asked ≢ unasked → (j : String) → Keeps (K k) (find_one_record T C ctx j)
  unfolding find_one_record
  find_one_record-Keeps asked j =
      Keeps-bind (search keeps_rules) λ r. Triple-asked asked λ f _. search keeps_rules depth 20

  pub test_find_one_error-Keeps : k.asked ≢ unasked → Keeps (K k) (test_find_one_error T C ctx)
  unfolding test_find_one_error
  test_find_one_error-Keeps asked = Triple-asked asked λ f _. search keeps_rules depth 20

  pub test_find_all_error-Keeps : k.asked ≢ unasked → Keeps (K k) (test_find_all_error T C ctx)
  unfolding test_find_all_error
  test_find_all_error-Keeps asked = Triple-asked asked λ f _. search keeps_rules depth 20

  -- The query is the name of a field.
  name_found :
      k.asked ≡ name → (g : Find) → Fits k.asked g → (n : String) × (as_string g.query ≡ some n)
  unfolding as_string
  name_found e g = rw e λ (n, q). (n, rw q refl)

  pub should_receive_these_distinct_fields-Keeps :
      k.asked ≡ name → (j : String) → Keeps (K k) (should_receive_these_distinct_fields T C ctx j)
  unfolding should_receive_these_distinct_fields
  should_receive_these_distinct_fields-Keeps e j = Keeps-bind (search keeps_rules) λ fields.
      Triple-asked (λ u. cc)
        λ f x.
          Keeps-bind (Keeps-must_be (K k) _ (name_found e f x)) λ n. search keeps_rules depth 20

  pub add_option-Keeps : k.asked ≢ unasked → (o : FindOption) → Keeps (K k) (add_option T C ctx o)
  unfolding add_option modify
  add_option-Keeps asked o = Triple-asked asked λ f y. record {
    at = λ w x. record {
      find = Fits-Asks k.asked f _ y;
      update_result = x.update_result;
      delete_result = x.delete_result;
      insert_result = x.insert_result;
    };
  }

  ask-Triple :
      (a : Asked) (q : Value)
      → ((f : Find) → f.query ≡ q → Asks a (some f))
      → Triple (K k) (ask T C ctx q) λ _. K (record k { asked = a })
  unfolding ask modify
  ask-Triple a q h = record {
    at = λ w x. record {
      find = h _ refl;
      update_result = x.update_result;
      delete_result = x.delete_result;
      insert_result = x.insert_result;
    };
  }

  pub find_records-Triple : Triple (K k) (find_records T C ctx) λ _. K (record k { asked = filter })
  unfolding find_records
  find_records-Triple = ask-Triple filter _ λ f e. (f, refl)

  pub find_with_id-Triple :
      (n : ℤ) → Triple (K k) (find_with_id T C ctx n) λ _. K (record k { asked = filter })
  unfolding find_with_id
  find_with_id-Triple n = ask-Triple filter _ λ f e. (f, refl)

  pub distinct-Triple :
      (n : String) → Triple (K k) (distinct T C ctx n) λ _. K (record k { asked = name })
  unfolding distinct
  distinct-Triple n = ask-Triple name _ λ f e. (f, n, refl, e)

pub the_records_should_match-Triple :
    (T : Toolkit) (C : DriverCollection) (ctx : C.Context) (k : Known) (j : String)
    → Triple
        (Has T C.State k)
        (the_records_should_match T C ctx j)
        λ _. Has T C.State (record k { asked = filter })
unfolding the_records_should_match
the_records_should_match-Triple T C ctx k j =
    Triple-bind (find_records-Triple T C ctx k)
      λ _. should_receive_these_records-Keeps T C ctx (record k { asked = filter }) (λ u. cc) j
