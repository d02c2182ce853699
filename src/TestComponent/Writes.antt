-- ===== src/TestComponent/Writes.antt =====
-- The steps of testcomponent/steps.go that insert, update and delete. They keep the result, also
-- where there is an error; those of `Must` keep the error too, and do not fail on it.
use dp_mongodb.Base.{String, ◌<>◌, Option, some, none, List, [], ◌∷◌}
use dp_mongodb.Base.Int.{ℤ}
use dp_mongodb.Bson.{Value, nil_value, int, str, doc, field, end, by_id}
use dp_mongodb.Mongo.{DriverCollection}
use dp_mongodb.Collection.Types.{CollectionUpdateResult, CollectionDeleteResult, Return}
use dp_mongodb.Collection.Write as Write
use dp_mongodb.Must as Must
use dp_mongodb.TestComponent.Programs.{
  Program, ◌>>=◌, ◌>>◌, modify, return_err, try, must_be, receive, call,
}
use dp_mongodb.TestComponent.{DataModel, to_value, Toolkit, Component}

-- `bson.D{{"$set", bson.D{{"name", record.Name}, {"age", record.Age}}}}`
abbrev set_name_and_age : DataModel → Value
set_name_and_age d =
    doc (field "$set" (doc (field "name" (str d.name) (field "age" (str d.age) end))) end)

-- `bson.M{"$set": record}`
abbrev set_record : Option DataModel → Value
set_record (some d) = doc (field "$set" (to_value d) end)
set_record none = doc (field "$set" nil_value end)

-- `[]interface{}{records[0], records[1]}`
abbrev pub first_two : List DataModel → Option (List Value)
first_two (r ∷ q ∷ rs) = some (to_value r ∷ to_value q ∷ [])
first_two _ = none

module _ (T : Toolkit) (C : DriverCollection) (ctx : C.Context) where
  abbrev Step : Type 0
  Step = Program (Component T × C.State) (Unit {0})

  -- `m.updateResult, err = …; return err`
  unfoldable pub update_with : (C.State → Return CollectionUpdateResult × C.State) → Step
  update_with write = do
    r ← call write
    (result, e) ← receive r
    modify λ m. record m { update_result = result }
    return_err e

  -- `m.deleteResult, err = …; return err`
  unfoldable pub delete_with : (C.State → Return CollectionDeleteResult × C.State) → Step
  delete_with write = do
    r ← call write
    (result, e) ← receive r
    modify λ m. record m { delete_result = result }
    return_err e

  -- `m.updateResult, m.mustErrorResult = …; return nil`
  unfoldable pub must_update_with : (C.State → Return CollectionUpdateResult × C.State) → Step
  must_update_with write = do
    r ← call write
    (result, e) ← receive r
    modify λ m. record m { update_result = result; must_error_result = e }

  -- `m.deleteResult, m.mustErrorResult = …; return nil`
  unfoldable pub must_delete_with : (C.State → Return CollectionDeleteResult × C.State) → Step
  must_delete_with write = do
    r ← call write
    (result, e) ← receive r
    modify λ m. record m { delete_result = result; must_error_result = e }

  abbrev name_like : String → Value
  name_like name = doc (field "name" (T.regex (".*" <> (name <> ".*"))) end)

  unfoldable pub upsert_record_by_id : ℤ → String → Step
  upsert_record_by_id id record_as_string = do
    p ← try (T.unmarshal_pointer record_as_string)
    r ← must_be p
    update_with (Write.upsert_one C ctx (by_id (int id)) (set_name_and_age r))

  unfoldable pub upsert_record : ℤ → String → Step
  upsert_record id record_as_string = do
    p ← try (T.unmarshal_pointer record_as_string)
    r ← must_be p
    update_with (Write.upsert_one C ctx (by_id (int id)) (set_name_and_age r))

  unfoldable pub update_record_by_id : ℤ → String → Step
  update_record_by_id id record_as_string = do
    p ← try (T.unmarshal_pointer record_as_string)
    r ← must_be p
    update_with (Write.update_one C ctx (by_id (int id)) (set_name_and_age r))

  unfoldable pub update_record : ℤ → String → Step
  update_record id record_as_string = do
    p ← try (T.unmarshal_pointer record_as_string)
    r ← must_be p
    update_with (Write.update_one C ctx (by_id (int id)) (set_name_and_age r))

  -- `iUpdateRecordsWithGroupAgeTo`
  unfoldable pub update_age : String → String → Step
  update_age name age = update_with (
      Write.update_many C ctx (doc (field "name" (str name) end))
        (doc (field "$set" (doc (field "age" (str age) end)) end)))

  unfoldable pub delete_record_by_id : ℤ → Step
  delete_record_by_id id = delete_with (Write.delete_one C ctx (by_id (int id)))

  unfoldable pub delete_record : ℤ → Step
  delete_record id = delete_with (Write.delete_one C ctx (by_id (int id)))

  unfoldable pub delete_record_by_name : String → Step
  delete_record_by_name name = delete_with (Write.delete_many C ctx (name_like name))

  unfoldable pub insert_records : String → Step
  insert_records records_json = do
    records ← try (T.unmarshal_records records_json)
    test_records ← must_be (first_two records)
    r ← call (Write.insert_many C ctx test_records)
    (result, e) ← receive r
    modify λ m. record m { insert_result = result }
    return_err e

  unfoldable pub must_update_id : ℤ → String → Step
  must_update_id id record_as_string = do
    r ← try (T.unmarshal_pointer record_as_string)
    must_update_with (Must.update_one C ctx (by_id (int id)) (set_record r))

  unfoldable pub must_update_record : ℤ → String → Step
  must_update_record id record_as_string = do
    r ← try (T.unmarshal_pointer record_as_string)
    must_update_with (Must.update_one C ctx (by_id (int id)) (set_record r))

  unfoldable pub must_delete_record_by_id : ℤ → Step
  must_delete_record_by_id id = must_delete_with (Must.delete_one C ctx (by_id (int id)))

  unfoldable pub must_delete_record : ℤ → Step
  must_delete_record id = must_delete_with (Must.delete_one C ctx (by_id (int id)))

  unfoldable pub must_delete_records_by_name : String → Step
  must_delete_records_by_name name = must_delete_with (Must.delete_many C ctx (name_like name))
