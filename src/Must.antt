-- ===== src/Must.antt =====
-- mongodb/must.go: the methods of a collection that make it an error to find no document.
pub mod Laws
use dp_mongodb.Base.{Option, some, none, if◌then◌else◌}
use dp_mongodb.Base.Int.{pos, eqb_ℤ, ltb_ℤ}
use dp_mongodb.Errors.{named, no_documents}
use dp_mongodb.Bson.{Value, by_id}
use dp_mongodb.Mongo.{DriverCollection}
use dp_mongodb.Collection.Types.{
  CollectionUpdateResult, CollectionDeleteResult, Return, returned, nil_dereference,
}
use dp_mongodb.Collection.Write as Write

-- What the methods do with the result and the error of the collection's method. The code reads
-- `result.MatchedCount` wherever the error is nil, also if the result is.
check_matched : Return CollectionUpdateResult → Return CollectionUpdateResult
check_matched (returned result (some e)) = returned none (some e)
check_matched (returned none none) = nil_dereference
check_matched (returned (some r) none) =
    if eqb_ℤ r.matched_count (pos 0)
    then returned none (some (named no_documents))
    else returned (some r) none
check_matched nil_dereference = nil_dereference

check_deleted : Return CollectionDeleteResult → Return CollectionDeleteResult
check_deleted (returned result (some e)) = returned none (some e)
check_deleted (returned none none) = nil_dereference
check_deleted (returned (some r) none) =
    if ltb_ℤ r.deleted_count (pos 1)
    then returned none (some (named no_documents))
    else returned (some r) none
check_deleted nil_dereference = nil_dereference

module _ (C : DriverCollection) where
  open C use {Context, State}

  unfoldable pub update_one :
      Context → Value → Value → State → Return CollectionUpdateResult × State
  unfolding check_matched
  update_one ctx selector update s =
      let (r, t) = Write.update_one C ctx selector update s in (check_matched r, t)

  unfoldable pub update_by_id :
      Context → Value → Value → State → Return CollectionUpdateResult × State
  unfolding update_one
  update_by_id ctx id update s = update_one ctx (by_id id) update s

  unfoldable pub update : Context → Value → Value → State → Return CollectionUpdateResult × State
  unfolding update_one
  update ctx selector change s = update_one ctx selector change s

  unfoldable pub update_many :
      Context → Value → Value → State → Return CollectionUpdateResult × State
  unfolding check_matched
  update_many ctx selector update s =
      let (r, t) = Write.update_many C ctx selector update s in (check_matched r, t)

  unfoldable pub delete_one : Context → Value → State → Return CollectionDeleteResult × State
  unfolding check_deleted
  delete_one ctx selector s = let (r, t) = Write.delete_one C ctx selector s in (check_deleted r, t)

  unfoldable pub delete_by_id : Context → Value → State → Return CollectionDeleteResult × State
  unfolding delete_one
  delete_by_id ctx id s = delete_one ctx (by_id id) s

  unfoldable pub delete : Context → Value → State → Return CollectionDeleteResult × State
  unfolding delete_one
  delete ctx selector s = delete_one ctx selector s

  unfoldable pub delete_many : Context → Value → State → Return CollectionDeleteResult × State
  unfolding check_deleted
  delete_many ctx selector s =
      let (r, t) = Write.delete_many C ctx selector s in (check_deleted r, t)
