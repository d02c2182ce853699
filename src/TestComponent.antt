-- ===== src/TestComponent.antt =====
-- testcomponent/steps.go: the state that the steps of a scenario share, and steps as programs over it
-- and the server.
pub mod Programs
pub mod Queries
pub mod Writes
pub mod Results
pub mod Transaction
pub mod Scenario
pub mod Ready
pub mod Phrases
pub mod Has
pub mod Triples
pub mod Verdicts
pub mod Counting
pub mod Safety
use dp_mongodb.Base.{
  ℕ, String, ◌<>◌, Bool, true, false, Option, none, some, List, [], ◌∷◌, map, if◌then◌else◌,
}
use dp_mongodb.Base.Int.{ℤ, pos}
use dp_mongodb.Errors.{Err}
use dp_mongodb.Bson.{Value, int, str, doc, field, end}
use dp_mongodb.Options.{FindOption}
use dp_mongodb.TestComponent.Programs.{Program, ◌>>=◌, ◌>>◌, get, modify, return_err}
use dp_mongodb.Collection.Types.{
  CollectionInsertManyResult, CollectionUpdateResult, CollectionDeleteResult,
}

pub record DataModel : Type 0 where
  pub id : ℤ
  pub name : String
  pub age : String

-- A record as a Go value.
abbrev pub to_value : DataModel → Value
to_value d = doc (field "_id" (int d.id) (field "name" (str d.name) (field "age" (str d.age) end)))

-- A pending query. The query is a filter, or the name of a field.
pub record Find : Type 0 where
  pub query : Value
  pub options : List FindOption

-- The packages that the steps use: encoding/json for the four types that the code reads, the
-- comparisons of testify, and the `ErrorFeature` of dp-component-test.
pub record Toolkit : Type 1 where
  pub Feature : Type 0
  pub fresh : Feature
  -- `Errorf`
  pub errorf : Feature → Feature
  -- `StepError`
  pub step_error : Feature → Option Err
  pub unmarshal_records : String → List DataModel × Option Err
  pub unmarshal_record : String → DataModel × Option Err
  -- into a pointer to a pointer, which `null` sets to nil
  pub unmarshal_pointer : String → Option DataModel × Option Err
  pub unmarshal_fields : String → List Value × Option Err
  pub unmarshal_ids : String → List ℤ × Option Err
  -- `ObjectsAreEqual`, for two records, for two slices of records and for two slices of ids
  pub equal : Value → Value → Bool
  pub equal_lists : List Value → List Value → Bool
  -- `ObjectsAreEqualValues`
  pub equal_values : Value → Value → Bool
  pub equal_value_lists : List Value → List Value → Bool
  -- `ObjectsAreEmpty`
  pub is_empty : Value → Bool
  -- the type assertion `.(int32)`: a `Value` does not tell how wide an integer is
  pub as_int32 : Value → Option ℤ
  -- the driver's error of `cursor.All` where the result is no slice
  pub not_a_slice : Err
  -- `mongo.IsTimeout`
  pub driver_is_timeout : Err → Bool
  -- `fmt.Errorf`: the text for a format, the collection's name and an error
  pub sprintf : String → Err → String
  -- a `primitive.Regex` with this pattern
  pub regex : String → Value

-- `MongoV2Component`. Its clients, its database and its collection are the driver's collection that
-- the steps are given.
pub record Component (T : Toolkit) : Type 0 where
  pub find : Option Find
  pub insert_result : Option CollectionInsertManyResult
  pub update_result : Option CollectionUpdateResult
  pub delete_result : Option CollectionDeleteResult
  pub must_error_result : Option Err
  pub error_feature : T.Feature

module _ (T : Toolkit) where
  -- `newMongoV2Component`
  abbrev pub new_component : Component T
  new_component = record {
    find = none;
    insert_result = none;
    update_result = none;
    delete_result = none;
    must_error_result = none;
    error_feature = T.fresh;
  }

  -- `reset`
  unfoldable pub reset : Component T → Component T
  reset m = record m {
    find = none;
    insert_result = none;
    update_result = none;
    delete_result = none;
    must_error_result = none;
    error_feature = T.fresh;
  }

  -- An assertion of testify.
  unfoldable pub assert : {S : Type 0} → Bool → Program (Component T × S) (Unit {0})
  assert b =
      modify
        λ m. record m { error_feature = if b then m.error_feature else T.errorf m.error_feature }

  -- `return m.ErrorFeature.StepError()`
  unfoldable pub step_error : {S : Type 0} → Program (Component T × S) (Unit {0})
  step_error = do m ← get; return_err (T.step_error m.error_feature)
