-- ===== src/Driver/Open/Counts.antt =====
-- What `Open` checks of the platform, and the conversions of counts that rely on it.
use dp_mongodb.Base.{◌≡◌, Bool, Option, some, List}
use dp_mongodb.Errors.{Err}
use dp_mongodb.Bson.{Value}
use dp_mongodb.Options.{FindOption}
use dp_mongodb.Mongo.{DriverCollection}
use dp_mongodb.Driver.{MongoDriverConfig}
use dp_mongodb.Connection.Handles.{MongoConnection}
use dp_mongodb.Driver.Open.{ClientDriver, open_}
use dp_mongodb.Driver.Open.Laws.{open_-Made}
use dp_mongodb.Collection.Read.{count, find}
use dp_mongodb.Collection.Write.{update_record, update_many, delete_one, delete_many}
use dp_mongodb.Collection.Exact.{
  IsInt64, IsKept, UpdateKept, DeleteKept, count-IsKept, find-IsKept, update_record-Kept,
  update_many-Kept, delete_one-Kept, delete_many-Kept,
}

-- Where `Open` returns a connection, and the driver's counts are int64 values, the conversion to
-- int changes none of the counts that `Count`, `Find`, `updateRecord` (so `UpdateOne` and
-- `UpsertOne`), `UpdateMany`, `DeleteOne` and `DeleteMany` return, for all arguments and in every
-- state.
pub open_-Kept :
    (D : ClientDriver) (m : MongoDriverConfig) (before after : D.State)
    (c : MongoConnection D.Client) (err : Option Err) (C : DriverCollection) (I : IsInt64 C)
    (ctx : C.Context) (s : C.State) (f u : Value) (results : List Value) (opts : List FindOption)
    (upsert : Bool)
    → open_ D m before ≡ ((some c, err), after)
    → IsKept D.int_size (count C ctx f opts s).0.0
      × IsKept D.int_size (find C ctx f results opts s).0.total
      × UpdateKept D.int_size (update_record C ctx f u upsert s).0
      × UpdateKept D.int_size (update_many C ctx f u s).0
      × DeleteKept D.int_size (delete_one C ctx f s).0
      × DeleteKept D.int_size (delete_many C ctx f s).0
open_-Kept D m before after c err C I ctx s f u results opts upsert e =
    let wide = (open_-Made D m before after c err e).1 in
    (
      count-IsKept D.int_size wide C I ctx s f opts,
      find-IsKept D.int_size wide C I ctx s f results opts,
      update_record-Kept D.int_size wide C I ctx s f u upsert,
      update_many-Kept D.int_size wide C I ctx s f u,
      delete_one-Kept D.int_size wide C I ctx s f,
      delete_many-Kept D.int_size wide C I ctx s f,
    )
