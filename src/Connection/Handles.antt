-- ===== src/Connection/Handles.antt =====
-- mongodb/connection.go, collection.go and must.go: the handles that a connection gives out, on
-- collections, on their `Must` and for mongo-lock. The driver's handles are a parameter.
use dp_mongodb.Base.{String}

-- The driver's clients, databases and collections, and the clients of mongo-lock.
pub record Handles : Type 1 where
  pub Client : Type 0
  pub Database : Type 0
  pub Handle : Type 0
  pub LockClient : Type 0
  -- `Client.Database`
  pub database : Client → String → Database
  -- `Database.Collection`
  pub collection : Database → String → Handle
  -- `lock.NewClient`
  pub new_client : Handle → LockClient

pub record MongoConnection (Client : Type 0) : Type 0 where
  pub client : Client
  pub database : String

abbrev pub new_mongo_connection : {Client : Type 0} → Client → String → MongoConnection Client
new_mongo_connection client database = record { client = client; database = database }

pub record Collection (Handle : Type 0) : Type 0 where
  pub handle : Handle

pub record Must (Handle : Type 0) : Type 0 where
  pub collection : Collection Handle

abbrev new_collection : {Handle : Type 0} → Handle → Collection Handle
new_collection handle = record { handle = handle }

abbrev new_must : {Handle : Type 0} → Collection Handle → Must Handle
new_must collection = record { collection = collection }

-- The method `Must` of a collection.
abbrev pub must : {Handle : Type 0} → Collection Handle → Must Handle
must c = new_must c

module _ (H : Handles) where
  open H use {Client, Database, Handle, LockClient}

  unfoldable d : MongoConnection Client → Database
  d ms = H.database ms.client ms.database

  -- The method `Collection` of a connection.
  unfoldable pub collection : MongoConnection Client → String → Collection Handle
  unfolding d
  collection ms name = new_collection (H.collection (d ms) name)

  unfoldable pub new_lock_client : Collection Handle → LockClient
  new_lock_client c = H.new_client c.handle
