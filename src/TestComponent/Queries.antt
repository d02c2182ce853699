-- ===== src/TestComponent/Queries.antt =====
-- The steps of testcomponent/steps.go that build a query, and those that run it. A nil slice and an
-- empty one are the same list: the driver leaves a nil slice nil where it has nothing to put in it.
use dp_mongodb.Base.{String, Option, some, none, List, [], ◌∷◌, map, ◌++◌, Bool, true, false}
use dp_mongodb.Base.Int.{ℤ, pos, negsuc, eqb_ℤ}
use dp_mongodb.Errors.{is_server_err, is?, no_documents}
use dp_mongodb.Bson.{Value, int, str, doc, field, end, by_id}
use dp_mongodb.Options.{FindOption, limit_to, offset, ignore_zero_limit, sort_by, project, builder}
use dp_mongodb.Mongo.{DriverCollection}
use dp_mongodb.Collection.Read as Read
use dp_mongodb.TestComponent.Programs.{
  Program, pure, ◌>>=◌, ◌>>◌, get, modify, return_err, try, must_be, from_reply, call,
}
use dp_mongodb.TestComponent.{DataModel, to_value, Toolkit, Component, assert, step_error}

-- `bson.D{}`
abbrev pub everything : Value
everything = doc end

-- `new(dataModel)`
abbrev pub zero_model : DataModel
zero_model = record { id = pos 0; name = ""; age = "" }

-- `m.find.query.(string)`
unfoldable pub as_string : Value → Option String
as_string (str s) = some s
as_string _ = none

abbrev is_nil_slice : List Value → Bool
is_nil_slice [] = true
is_nil_slice (x ∷ xs) = false

-- The collection, asked to put what it finds into an integer.
abbrev into_integer : Toolkit → DriverCollection → DriverCollection
into_integer T C = record C {
  all = λ cursor ctx old s. ((old, some T.not_a_slice), (C.all cursor ctx old s).1);
}

module _ (T : Toolkit) (C : DriverCollection) (ctx : C.Context) where
  abbrev Step : Type 0
  Step = Program (Component T × C.State) (Unit {0})

  -- `m.find = &find{query: …}`
  unfoldable pub ask : Value → Step
  ask q = modify λ m. record m { find = some (record { query = q; options = [] }) }

  -- `m.find.options = append(m.find.options, …)`
  unfoldable pub add_option : FindOption → Step
  add_option o = do
    m ← get
    f ← must_be m.find
    modify λ m. record m { find = some (record f { options = f.options ++ (o ∷ []) }) }

  -- The loop of `insertedTheseRecords`.
  unfoldable pub insert_each : List DataModel → Step
  insert_each [] = pure tt
  insert_each (r ∷ rs) = do
    reply ← call (C.insert_one ctx (to_value r))
    from_reply reply
    insert_each rs

  unfoldable pub inserted_these_records : String → Step
  unfolding insert_each
  inserted_these_records records_json = do
    records ← try (T.unmarshal_records records_json)
    insert_each records
    reply ← call (C.find ctx everything builder)
    cursor ← from_reply reply
    read ← call (C.all cursor ctx [])
    found_records ← try read
    assert T (T.equal_value_lists (map to_value records) found_records)
    step_error T

  unfoldable pub find_records : Step
  find_records = ask everything

  unfoldable pub should_receive_these_records : String → Step
  should_receive_these_records records_json = do
    m ← get
    f ← must_be m.find
    found ← call (Read.find C ctx f.query [] f.options)
    return_err found.err
    expected_records ← try (T.unmarshal_records records_json)
    assert T (T.equal_lists (map to_value expected_records) found.results)
    step_error T

  unfoldable pub the_records_should_match : String → Step
  unfolding find_records should_receive_these_records
  the_records_should_match records_json = do find_records; should_receive_these_records records_json

  unfoldable pub should_receive_no_records : ℤ → Step
  should_receive_no_records total_count = do
    m ← get
    f ← must_be m.find
    found ← call (Read.find C ctx f.query [] f.options)
    return_err found.err
    assert T (eqb_ℤ total_count found.total)
    assert T (is_nil_slice found.results)
    step_error T

  unfoldable pub should_receive_these_distinct_fields : String → Step
  should_receive_these_distinct_fields records_json = do
    expected_fields ← try (T.unmarshal_fields records_json)
    m ← get
    f ← must_be m.find
    field_name ← must_be (as_string f.query)
    read ← call (Read.distinct C ctx field_name everything)
    actual_fields ← try read
    assert T (T.equal_value_lists expected_fields actual_fields)
    step_error T

  unfoldable pub count_records : ℤ → Step
  count_records expected = do
    m ← get
    f ← must_be m.find
    counted ← call (Read.count C ctx f.query f.options)
    actual ← try counted
    assert T (eqb_ℤ expected actual)
    step_error T

  unfoldable pub set_limit : ℤ → Step
  set_limit limit = add_option (limit_to limit)

  unfoldable pub set_skip : ℤ → Step
  set_skip skip = add_option (offset skip)

  unfoldable pub set_ignore_zero_limit : Step
  set_ignore_zero_limit = add_option ignore_zero_limit

  unfoldable pub find_with_id : ℤ → Step
  find_with_id id = ask (by_id (doc (field "$gt" (int id) end)))

  unfoldable pub sort_by_id_desc : Step
  sort_by_id_desc = add_option (sort_by (doc (field "_id" (int (negsuc 0)) end)))

  unfoldable pub select_field : String → Step
  select_field name = add_option (project (doc (field name (int (pos 1)) end)))

  unfoldable pub distinct : String → Step
  distinct name = ask (str name)

  unfoldable pub find_one_record : String → Step
  find_one_record record_as_string = do
    expected_record ← try (T.unmarshal_record record_as_string)
    m ← get
    f ← must_be m.find
    found ← call (Read.find_one C ctx f.query (to_value zero_model) f.options)
    return_err found.err
    assert T (T.equal (to_value expected_record) found.result)
    step_error T

  unfoldable pub test_find_one_error : Step
  test_find_one_error = do
    m ← get
    f ← must_be m.find
    found ← call (Read.find_one C ctx f.query (to_value zero_model) f.options)
    assert T (is? found.err no_documents)
    step_error T

  unfoldable pub test_find_all_error : Step
  test_find_all_error = do
    m ← get
    f ← must_be m.find
    found ← call (Read.find (into_integer T C) ctx f.query [] f.options)
    assert T (is_server_err T.driver_is_timeout found.err)
    step_error T
