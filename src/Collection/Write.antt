-- ===== src/Collection/Write.antt =====
-- The methods of mongodb/collection.go that insert, update and delete, over the driver's collection.
use dp_mongodb.Base.{Bool, true, false, none, some, List, if◌then◌else◌}
use dp_mongodb.Base.Int.{pos}
use dp_mongodb.Errors.{wrap_mongo_error}
use dp_mongodb.Bson.{Value, nil_value, by_id}
use dp_mongodb.Mongo.{answer, failed, UpdateResult, DriverCollection}
use dp_mongodb.Collection.Types.{
  CollectionInsertManyResult, CollectionUpdateResult, CollectionDeleteResult,
  CollectionInsertResult, Return, returned,
}

-- `&CollectionUpdateResult{…}` of `updateRecord`
abbrev update_result : UpdateResult → CollectionUpdateResult
update_result r = record {
  matched_count = r.matched_count;
  modified_count = r.modified_count;
  upserted_count = r.upserted_count;
  upserted_id = r.upserted_id;
}

-- `&CollectionUpdateResult{…}` of `UpdateMany`
abbrev update_many_result : UpdateResult → CollectionUpdateResult
update_many_result r = record {
  matched_count = r.matched_count;
  modified_count = r.modified_count;
  upserted_count = pos 0;
  upserted_id = nil_value;
}

module _ (C : DriverCollection) where
  open C use {Context, State}

  unfoldable pub insert_one : Context → Value → State → Return CollectionInsertResult × State
  insert_one ctx document s =
      let (reply, t) = C.insert_one ctx document s in
      elim reply [
        | failed e ↦ (returned none (wrap_mongo_error (some e)), t)
        | answer id ↦ (returned (some (record { inserted_id = id })) none, t)
      ]

  unfoldable pub insert : Context → Value → State → Return CollectionInsertResult × State
  unfolding insert_one
  insert ctx document s = insert_one ctx document s

  unfoldable pub insert_many :
      Context → List Value → State → Return CollectionInsertManyResult × State
  insert_many ctx documents s =
      let (reply, t) = C.insert_many ctx documents s in
      elim reply [
        | failed e ↦ (returned none (wrap_mongo_error (some e)), t)
        | answer ids ↦ (returned (some (record { inserted_ids = ids })) none, t)
      ]

  -- `updateRecord`
  unfoldable pub update_record :
      Context → Value → Value → Bool → State → Return CollectionUpdateResult × State
  update_record ctx selector update upsert s =
      let opts = if upsert then some true else none in
      let (reply, t) = C.update_one ctx selector update opts s in
      elim reply [
        | answer r ↦ (returned (some (update_result r)) none, t)
        | failed e ↦ (returned none (wrap_mongo_error (some e)), t)
      ]

  unfoldable pub upsert_one :
      Context → Value → Value → State → Return CollectionUpdateResult × State
  unfolding update_record
  upsert_one ctx selector update s = update_record ctx selector update true s

  unfoldable pub upsert : Context → Value → Value → State → Return CollectionUpdateResult × State
  unfolding upsert_one
  upsert ctx selector update s = upsert_one ctx selector update s

  unfoldable pub upsert_by_id :
      Context → Value → Value → State → Return CollectionUpdateResult × State
  unfolding upsert_one
  upsert_by_id ctx id update s = upsert_one ctx (by_id id) update s

  unfoldable pub update_one :
      Context → Value → Value → State → Return CollectionUpdateResult × State
  unfolding update_record
  update_one ctx selector update s = update_record ctx selector update false s

  unfoldable pub update_by_id :
      Context → Value → Value → State → Return CollectionUpdateResult × State
  unfolding update_one
  update_by_id ctx id update s = update_one ctx (by_id id) update s

  unfoldable pub update : Context → Value → Value → State → Return CollectionUpdateResult × State
  unfolding update_one
  update ctx selector change s = update_one ctx selector change s

  unfoldable pub update_many :
      Context → Value → Value → State → Return CollectionUpdateResult × State
  update_many ctx selector update s =
      let (reply, t) = C.update_many ctx selector update none s in
      elim reply [
        | answer r ↦ (returned (some (update_many_result r)) none, t)
        | failed e ↦ (returned none (wrap_mongo_error (some e)), t)
      ]

  unfoldable pub delete_one : Context → Value → State → Return CollectionDeleteResult × State
  delete_one ctx selector s =
      let (reply, t) = C.delete_one ctx selector s in
      elim reply [
        | failed e ↦ (returned none (wrap_mongo_error (some e)), t)
        | answer n ↦ (returned (some (record { deleted_count = n })) none, t)
      ]

  unfoldable pub delete : Context → Value → State → Return CollectionDeleteResult × State
  unfolding delete_one
  delete ctx selector s = delete_one ctx selector s

  unfoldable pub delete_by_id : Context → Value → State → Return CollectionDeleteResult × State
  unfolding delete_one
  delete_by_id ctx id s = delete_one ctx (by_id id) s

  unfoldable pub delete_many : Context → Value → State → Return CollectionDeleteResult × State
  delete_many ctx selector s =
      let (reply, t) = C.delete_many ctx selector s in
      elim reply [
        | failed e ↦ (returned none (wrap_mongo_error (some e)), t)
        | answer n ↦ (returned (some (record { deleted_count = n })) none, t)
      ]
