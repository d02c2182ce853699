-- ===== src/Collection/Outcomes.antt =====
-- What the methods make of the answers and the errors of the driver.
use dp_mongodb.Collection.Settled.{wrap_mongo_error-some}
use dp_mongodb.Base.{
  ◌≡◌, refl, ap, ◌∷◌, inl, inr, Bool, true, String, Option, none, some, List, [], Option-cases,
  if◌then◌else◌,
}
use dp_mongodb.Errors.{Err, wrap_mongo_error}
use dp_mongodb.Base.Int.{ℤ, pos}
use dp_mongodb.Bson.{Value}
use dp_mongodb.Options.{
  FindOption, new_find_options, as_driver_find_option, as_driver_find_one_option,
  as_driver_find_one_and_update_option, as_driver_count_option,
}
use dp_mongodb.Collection.Paging.{Reply-cases}
use dp_mongodb.Mongo.{Reply, answer, failed, UpdateResult, DriverCollection}
use dp_mongodb.Collection.Types.{
  Return, returned, CollectionInsertResult, CollectionInsertManyResult, CollectionUpdateResult,
  CollectionDeleteResult,
}
use dp_mongodb.Collection.Read.{
  find, distinct, count, decoded, find_one, find_one_and_update, find_cursor, aggregate,
  default_sort,
}
use dp_mongodb.Collection.Write.{
  insert_one, insert_many, update_record, update_many, delete_one, delete_many,
}

-- What a method makes of the driver's reply: a result and no error, if that is an answer, and no
-- result and the driver's error, wrapped, if it is an error.
abbrev pub Settles : {A B : Type 0} → Reply A → Return B → Type 0
Settles {B = B} (answer a) out = (b : B) × (out ≡ returned (some b) none)
Settles (failed e) out =
    (x : Err) × (wrap_mongo_error (some e) ≡ some x) × (out ≡ returned none (some x))

-- The first of two errors.
abbrev pub first_error : Option Err → Option Err → Option Err
first_error none e = e
first_error (some x) e = some x

wrapped-Settles :
    (A B : Type 0) (x : Err)
    → Settles {A = A} {B = B} (failed x) (returned none (wrap_mongo_error (some x)))
wrapped-Settles A B x = let (e, p) = wrap_mongo_error-some x in (e, p, ap (λ r. returned none r) p)

module _ (C : DriverCollection) (ctx : C.Context) (s : C.State) where
  insert_one-Settles :
      (document : Value) → Settles (C.insert_one ctx document s).0 (insert_one C ctx document s).0
  unfolding insert_one
  insert_one-Settles document = elim (Reply-cases (C.insert_one ctx document s).0) [
    | inl (a, e) ↦ rw (e, insert_one) (_, refl)
    | inr (x, e) ↦ rw (e, insert_one) (wrapped-Settles Value CollectionInsertResult x)
  ]

  insert_many-Settles :
      (documents : List Value)
      → Settles (C.insert_many ctx documents s).0 (insert_many C ctx documents s).0
  unfolding insert_many
  insert_many-Settles documents = elim (Reply-cases (C.insert_many ctx documents s).0) [
    | inl (a, e) ↦ rw (e, insert_many) (_, refl)
    | inr (x, e) ↦ rw (e, insert_many) (wrapped-Settles (List Value) CollectionInsertManyResult x)
  ]

  update_record-Settles :
      (selector update : Value) (upsert : Bool)
      → Settles
          (C.update_one ctx selector update (if upsert then some true else none) s).0
          (update_record C ctx selector update upsert s).0
  unfolding update_record
  update_record-Settles selector update upsert = elim (Reply-cases reply) [
    | inl (a, e) ↦ rw (e, update_record) (_, refl)
    | inr (x, e) ↦ rw (e, update_record) (wrapped-Settles UpdateResult CollectionUpdateResult x)
  ]
    where
      reply : Reply UpdateResult
      reply = (C.update_one ctx selector update (if upsert then some true else none) s).0

  update_many-Settles :
      (selector update : Value)
      → Settles (C.update_many ctx selector update none s).0 (update_many C ctx selector update s).0
  unfolding update_many
  update_many-Settles selector update =
      elim (Reply-cases (C.update_many ctx selector update none s).0) [
        | inl (a, e) ↦ rw (e, update_many) (_, refl)
        | inr (x, e) ↦ rw (e, update_many) (wrapped-Settles UpdateResult CollectionUpdateResult x)
      ]

  delete_one-Settles :
      (selector : Value) → Settles (C.delete_one ctx selector s).0 (delete_one C ctx selector s).0
  unfolding delete_one
  delete_one-Settles selector = elim (Reply-cases (C.delete_one ctx selector s).0) [
    | inl (a, e) ↦ rw (e, delete_one) (_, refl)
    | inr (x, e) ↦ rw (e, delete_one) (wrapped-Settles ℤ CollectionDeleteResult x)
  ]

  delete_many-Settles :
      (selector : Value) → Settles (C.delete_many ctx selector s).0 (delete_many C ctx selector s).0
  unfolding delete_many
  delete_many-Settles selector = elim (Reply-cases (C.delete_many ctx selector s).0) [
    | inl (a, e) ↦ rw (e, delete_many) (_, refl)
    | inr (x, e) ↦ rw (e, delete_many) (wrapped-Settles ℤ CollectionDeleteResult x)
  ]

  -- The driver's error in a decoded result.
  abbrev pub decode_error : C.SingleResult → Value → Option Err
  decode_error r result = first_error (C.single_err r) (C.decode r result).1

  decoded_error :
      (r : C.SingleResult) (result : Value)
      → (decoded C r result).err ≡ wrap_mongo_error (decode_error r result)
  unfolding decoded
  decoded_error r result = elim (Option-cases (C.single_err r)) [
    | inl e ↦ rw (e, decoded) refl
    | inr (x, e) ↦ rw (e, decoded) refl
  ]

  -- The driver's answer to a query for a cursor.
  abbrev pub asked_cursor : Value → List FindOption → Reply C.Cursor
  asked_cursor filter opts =
      (C.find ctx filter (as_driver_find_option (default_sort (new_find_options opts))) s).0

  find_cursor-Settles :
      (filter : Value) (opts : List FindOption)
      → Settles (asked_cursor filter opts) (find_cursor C ctx filter opts s).0
  unfolding find_cursor
  find_cursor-Settles filter opts = elim (Reply-cases (asked_cursor filter opts)) [
    | inl (a, e) ↦ rw (e, find_cursor) (_, refl)
    | inr (x, e) ↦ rw (e, find_cursor) (wrapped-Settles C.Cursor C.Cursor x)
  ]

  -- The driver's error in an aggregation, or in reading its cursor.
  unfoldable pub aggregate_error : Value → List Value → Option Err
  aggregate_error pipeline results =
      let (reply, t) = C.aggregate ctx pipeline s in
      elim reply [ failed e ↦ some e | answer cursor ↦ (C.all cursor ctx results t).0.1 ]

  aggregate_outcome :
      (pipeline : Value) (results : List Value)
      → (aggregate C ctx pipeline results s).0.1
        ≡ wrap_mongo_error (aggregate_error pipeline results)
  unfolding aggregate aggregate_error wrap_mongo_error
  aggregate_outcome pipeline results = elim (Reply-cases (C.aggregate ctx pipeline s).0) [
    | inl (cursor, e) ↦
        elim (Option-cases (C.all cursor ctx results (C.aggregate ctx pipeline s).1).0.1) [
          | inl q ↦ rw (e, q, aggregate, aggregate_error) refl
          | inr (x, q) ↦ rw (e, q, aggregate, aggregate_error) refl
        ]
    | inr (x, e) ↦ rw (e, aggregate, aggregate_error) refl
  ]

  find_count_error :
      (filter : Value) (results : List Value) (opts : List FindOption) (e : Err)
      → (C.count_documents ctx filter [] s).0.1 ≡ some e
      → (find C ctx filter results opts s).0
        ≡ record { total = pos 0; results = results; err = some e }
  unfolding find
  find_count_error filter results opts e h = rw (h, find) refl

  -- The errors of the driver are returned, as `wrapMongoError` wraps them: by `Distinct`, `Count`,
  -- `FindOne` and `FindOneAndUpdate` (that of the call, or else that of decoding), and `Aggregate`
  -- (that of the call, or else that of reading all), whose errors are nil only where these are. Where
  -- the driver answers, `FindCursor`, `InsertOne`, `InsertMany`, `updateRecord` (so `UpdateOne` and
  -- `UpsertOne`), `UpdateMany`, `DeleteOne` and `DeleteMany` return a result and a nil error, and
  -- where it fails a nil result and its error, wrapped. `Find` alone returns an error of the driver
  -- as it is: that of the count. All this holds for all arguments and in every state.
  pub methods-Settles :
      (field : String) (selector update result : Value) (documents : List Value)
      (opts : List FindOption) (upsert : Bool)
      → ((distinct C ctx field selector s).0.1
          ≡ wrap_mongo_error (C.distinct ctx field selector s).0.1)
        × ((count C ctx selector opts s).0.1
            ≡ wrap_mongo_error
                (C.count_documents ctx selector
                  (as_driver_count_option (new_find_options opts) ∷ [])
                  s).0.1)
        × ((find_one C ctx selector result opts s).0.err
            ≡ wrap_mongo_error (
                decode_error
                  (C.find_one ctx selector (as_driver_find_one_option (new_find_options opts)) s).0
                  result))
        × ((find_one_and_update C ctx selector update result opts s).0.err
            ≡ wrap_mongo_error (
                decode_error
                  (C.find_one_and_update ctx selector update
                    (as_driver_find_one_and_update_option (new_find_options opts))
                    s).0
                  result))
        × ((aggregate C ctx selector documents s).0.1
            ≡ wrap_mongo_error (aggregate_error selector documents))
        × Settles (asked_cursor selector opts) (find_cursor C ctx selector opts s).0
        × Settles (C.insert_one ctx selector s).0 (insert_one C ctx selector s).0
        × Settles (C.insert_many ctx documents s).0 (insert_many C ctx documents s).0
        × Settles
            (C.update_one ctx selector update (if upsert then some true else none) s).0
            (update_record C ctx selector update upsert s).0
        × Settles
            (C.update_many ctx selector update none s).0
            (update_many C ctx selector update s).0
        × Settles (C.delete_one ctx selector s).0 (delete_one C ctx selector s).0
        × Settles (C.delete_many ctx selector s).0 (delete_many C ctx selector s).0
        × ((e : Err)
            → (C.count_documents ctx selector [] s).0.1 ≡ some e
            → (find C ctx selector documents opts s).0
              ≡ record { total = pos 0; results = documents; err = some e })
  unfolding distinct count find_one find_one_and_update
  methods-Settles field selector update result documents opts upsert = (
    refl,
    refl,
    decoded_error _ result,
    decoded_error _ result,
    aggregate_outcome selector documents,
    find_cursor-Settles selector opts,
    insert_one-Settles selector,
    insert_many-Settles documents,
    update_record-Settles selector update upsert,
    update_many-Settles selector update,
    delete_one-Settles selector,
    delete_many-Settles selector,
    find_count_error selector documents opts,
  )
