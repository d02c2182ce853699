-- ===== src/Collection/Types.antt =====
-- The results of mongodb/collection.go.
use dp_mongodb.Base.{Option, List}
use dp_mongodb.Base.Int.{ℤ}
use dp_mongodb.Errors.{Err}
use dp_mongodb.Bson.{Value}

pub record CollectionInsertManyResult : Type 0 where
  pub inserted_ids : List Value

pub record CollectionUpdateResult : Type 0 where
  pub matched_count : ℤ
  pub modified_count : ℤ
  pub upserted_count : ℤ
  pub upserted_id : Value

pub record CollectionDeleteResult : Type 0 where
  pub deleted_count : ℤ

pub record CollectionInsertResult : Type 0 where
  pub inserted_id : Value

-- What a method leaves behind that returns a pointer and an error: both may be nil. The other case
-- is a dereference of a nil pointer, a panic in Go.
pub data Return (A : Type 0) : Type 0 where
  returned : Option A → Option Err → Return A
  nil_dereference : Return A

-- What `Find` returns and leaves in `results`.
pub record Found : Type 0 where
  pub total : ℤ
  pub results : List Value
  pub err : Option Err

-- What `FindOne` and `FindOneAndUpdate` return and leave in `result`.
pub record FoundOne : Type 0 where
  pub result : Value
  pub err : Option Err
