-- ===== src/Collection/Read.antt =====
-- The methods of mongodb/collection.go that query: `Distinct`, `Count`, `Find`, `FindOne`,
-- `FindOneAndUpdate`, `FindCursor` and `Aggregate`, over the driver's collection.
use dp_mongodb.Base.{String, Option, none, some, ◌&&◌, ◌||◌, List, [], ◌∷◌, if◌then◌else◌}
use dp_mongodb.Base.Int.{ℤ, pos, ltb_ℤ, leb_ℤ, eqb_ℤ}
use dp_mongodb.Errors.{Err, wrap_mongo_error}
use dp_mongodb.Bson.{Value, ascending_id, is_nil}
use dp_mongodb.Options.{
  FindOptions, FindOption, new_find_options, as_driver_find_option, as_driver_find_one_option,
  as_driver_find_one_and_update_option, as_driver_count_option,
}
use dp_mongodb.Mongo.{answer, failed, DriverCollection}
use dp_mongodb.Collection.Types.{Return, returned, Found, FoundOne}

-- `if fo.sort == nil { fo.sort = bson.M{"_id": 1} }`
abbrev pub default_sort : FindOptions → FindOptions
default_sort fo = if is_nil fo.sort then record fo { sort = ascending_id } else fo

module _ (C : DriverCollection) where
  open C use {Context, State}

  unfoldable pub distinct : Context → String → Value → State → (List Value × Option Err) × State
  distinct ctx field_name filter s =
      let (reply, t) = C.distinct ctx field_name filter s in
      ((reply.0, wrap_mongo_error reply.1), t)

  unfoldable pub count : Context → Value → List FindOption → State → (ℤ × Option Err) × State
  count ctx filter opts s =
      let (reply, t) =
        C.count_documents ctx filter (as_driver_count_option (new_find_options opts) ∷ []) s in
      ((reply.0, wrap_mongo_error reply.1), t)

  -- The end of `Find`, from the choice of the sort order on.
  unfoldable pub find_page : Context → Value → List Value → FindOptions → ℤ → State → Found × State
  find_page ctx filter results fo tc s =
      let (reply, t) = C.find ctx filter (as_driver_find_option (default_sort fo)) s in
      elim reply [
        | failed e ↦
            (record { total = pos 0; results = results; err = wrap_mongo_error (some e) }, t)
        | answer cursor ↦
            let (read, u) = C.all cursor ctx results t in
            (record { total = tc; results = read.0; err = wrap_mongo_error read.1 }, u)
      ]

  -- The `switch` of `Find`, after a count that did not fail.
  unfoldable pub find_counted :
      Context → Value → List Value → FindOptions → ℤ → State → Found × State
  unfolding find_page
  find_counted ctx filter results fo tc s =
      if eqb_ℤ tc (pos 0)
      then (record { total = pos 0; results = results; err = none }, s)
      else if (ltb_ℤ fo.limit (pos 0) || leb_ℤ tc fo.skip)
          || (eqb_ℤ fo.limit (pos 0) && fo.obey_zero_limit)
      then (record { total = tc; results = results; err = none }, s)
      else find_page ctx filter results fo tc s

  unfoldable pub find : Context → Value → List Value → List FindOption → State → Found × State
  unfolding find_counted
  find ctx filter results opts s =
      let (counted, t) = C.count_documents ctx filter [] s in
      elim counted.1 [
        | some e ↦ (record { total = pos 0; results = results; err = some e }, t)
        | none ↦ find_counted ctx filter results (new_find_options opts) counted.0 t
      ]

  -- The end of `FindOne` and of `FindOneAndUpdate`.
  unfoldable pub decoded : C.SingleResult → Value → FoundOne
  decoded r result = elim (C.single_err r) [
    | some e ↦ record { result = result; err = wrap_mongo_error (some e) }
    | none ↦
        let (read, err) = C.decode r result in record { result = read; err = wrap_mongo_error err }
  ]

  unfoldable pub find_one : Context → Value → Value → List FindOption → State → FoundOne × State
  unfolding decoded
  find_one ctx filter result opts s =
      let (r, t) = C.find_one ctx filter (as_driver_find_one_option (new_find_options opts)) s in
      (decoded r result, t)

  unfoldable pub find_one_and_update :
      Context → Value → Value → Value → List FindOption → State → FoundOne × State
  unfolding decoded
  find_one_and_update ctx filter update result opts s =
      let (r, t) =
        C.find_one_and_update ctx filter update
          (as_driver_find_one_and_update_option (new_find_options opts)) s in
      (decoded r result, t)

  unfoldable pub find_cursor : Context → Value → List FindOption → State → Return C.Cursor × State
  find_cursor ctx filter opts s =
      let fo = default_sort (new_find_options opts) in
      let (reply, t) = C.find ctx filter (as_driver_find_option fo) s in
      elim reply [
        | failed e ↦ (returned none (wrap_mongo_error (some e)), t)
        | answer cursor ↦ (returned (some cursor) none, t)
      ]

  -- What `Aggregate` leaves in `results`, and its error.
  unfoldable pub aggregate :
      Context → Value → List Value → State → (List Value × Option Err) × State
  aggregate ctx pipeline results s =
      let (reply, t) = C.aggregate ctx pipeline s in
      elim reply [
        | failed e ↦ ((results, wrap_mongo_error (some e)), t)
        | answer cursor ↦
            let (read, u) = C.all cursor ctx results t in
            elim read.1 [
              | some e ↦ ((read.0, wrap_mongo_error (some e)), u)
              | none ↦ ((read.0, none), u)
            ]
      ]
