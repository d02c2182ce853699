-- ===== src/Tests/Connections.antt =====
-- Connections: runs, and the theorems, at a concrete configuration and a driver that always answers.
use dp_mongodb.Base.{
  ℕ, suc, ◌≤◌, ◌≡◌, inl, refl, List, [], ◌∷◌, String, true, false, Option, none, some, ap, arith,
}
use dp_mongodb.Base.Int.{ℤ, pos}
use dp_mongodb.Base.Text.{codes}
use dp_mongodb.Errors.{text, Err}
use dp_mongodb.Driver.{MongoDriverConfig, TlsConfig, get_tls_config, get_connection_uri}
use dp_mongodb.Driver.Address.{IsAddress, HasAddress}
use dp_mongodb.Driver.Uri.{Reading, IsUri, get_connection_uri-Reading}
use dp_mongodb.Driver.Tls.{Verifies}
use dp_mongodb.Connection.Handles.{MongoConnection}
use dp_mongodb.Driver.Open.{ClientDriver, ClientOptions, Made, open_}
use mathlib.Core.Path.{subst}
use dp_mongodb.Bson.{nil_value}
use dp_mongodb.Mongo.{DriverCollection, UpdateResult, Reply, answer}
use dp_mongodb.Collection.Read.{count, find}
use dp_mongodb.Collection.Write.{update_record, update_many, delete_one, delete_many}
use dp_mongodb.Collection.Width.{Fits, to_int}
use dp_mongodb.Collection.Exact.{IsInt64, IsKept, UpdateKept, DeleteKept}
use dp_mongodb.Driver.Open.Counts.{open_-Kept}
use dp_mongodb.Tests.Memory.{memory, read_of}
use dp_mongodb.Driver.Open.Laws.{open_-Made, open_-Verifies}

abbrev config : String → MongoDriverConfig
config endpoint = record {
  username = "u";
  password = "p";
  cluster_endpoint = endpoint;
  database = "db";
  collections = ("films", "f") ∷ [];
  replica_set = "";
  direct_connection = false;
  is_strong_read_concern_enabled = true;
  is_write_concern_majority_enabled = false;
  connect_timeout = pos 5;
  query_timeout = pos 5;
  tls = record {
    is_ssl = true;
    verify_cert = true;
    ca_cert_chain = "pem";
    real_hostname_for_ssh = "";
  };
}

uri_run :
    get_connection_uri (config "mongodb://h:27")
    ≡ ("mongodb://u:p@h:27/db?directConnection=true", none)
unfolding get_connection_uri
uri_run = refl

get_connection_uri-Reading_example : Reading (config "mongodb://h:27")
get_connection_uri-Reading_example = get_connection_uri-Reading (config "mongodb://h:27")

no_endpoint : get_connection_uri (config "") ≡ ("", some (text "invalid mongodb address: "))
unfolding get_connection_uri
no_endpoint = refl

-- A driver whose calls all succeed, and count their number.
abbrev driver : ClientDriver
driver = record {
  State = ℕ;
  Client = ℕ;
  Pool = String;
  int_size = 64;
  append_certs_from_pem = (λ chain. (chain, true));
  name_text = (λ n. "");
  new_client = (λ options s. (inl 0, suc s));
  connect = (λ c timeout s. (none, suc s));
  ping = (λ c timeout s. (none, suc s));
}

abbrev connection : MongoConnection ℕ
connection = record { client = 0; database = "db" }

open_run : open_ driver (config "h") 0 ≡ ((some connection, none), 3)
unfolding open_ get_tls_config get_connection_uri
open_run = refl

open_-Made_example :
    (Path (Option Err) none none)
    × (64 ≤ 64)
    × (options : ClientOptions String) × Made driver (config "h") options 0 connection 3
    × (options.retry_writes ≡ false)
    × (address : List ℕ) × IsAddress address
    × HasAddress (codes "h") address
    × IsUri (config "h") address (codes options.uri)
open_-Made_example = open_-Made driver (config "h") 0 3 connection none open_run

open_-Verifies_example :
    (options : ClientOptions String) × Made driver (config "h") options 0 connection 3
    × (c : TlsConfig String) × (options.tls_config ≡ some c)
    × Verifies driver.append_certs_from_pem (config "h").tls c
open_-Verifies_example = open_-Verifies driver (config "h") 0 3 connection none refl refl open_run

-- A server that has more documents than an int of 32 bits counts.
abbrev many : ℤ
many = pos 1_099_511_627_776

abbrev many_changed : UpdateResult
many_changed = record {
  matched_count = many;
  modified_count = many;
  upserted_count = pos 0;
  upserted_id = nil_value;
}

abbrev crowd : DriverCollection
crowd = record memory {
  count_documents = λ ctx f opts s. ((many, none), s);
  update_one = λ ctx f u upsert s. (answer many_changed, s);
  update_many = λ ctx f u upsert s. (answer many_changed, s);
  delete_one = λ ctx f s. (answer many, s);
  delete_many = λ ctx f s. (answer many, s);
}

many_fits :
    (r : UpdateResult)
    → Reply.answer many_changed ≡ answer r
    → Fits 64 r.matched_count × Fits 64 r.modified_count × Fits 64 r.upserted_count
many_fits r e =
    subst
      (λ (q : UpdateResult).
        Fits 64 q.matched_count × Fits 64 q.modified_count × Fits 64 q.upserted_count)
      (ap (read_of many_changed) e) (omega arith)

many_deleted : (n : ℤ) → Reply.answer many ≡ answer n → Fits 64 n
many_deleted n e = subst (Fits 64) (ap (read_of many) e) (omega arith)

crowd-IsInt64 : IsInt64 crowd
crowd-IsInt64 = record {
  counted = λ ctx f opts s. omega arith;
  updated = λ ctx f u o s. many_fits;
  updated_many = λ ctx f u o s r e. ((many_fits r e).0, (many_fits r e).1);
  deleted = λ ctx f s. many_deleted;
  deleted_many = λ ctx f s. many_deleted;
}

open_-Kept_example :
    IsKept 64 (count crowd tt nil_value [] []).0.0
    × IsKept 64 (find crowd tt nil_value [] [] []).0.total
    × UpdateKept 64 (update_record crowd tt nil_value nil_value true []).0
    × UpdateKept 64 (update_many crowd tt nil_value nil_value []).0
    × DeleteKept 64 (delete_one crowd tt nil_value []).0
    × DeleteKept 64 (delete_many crowd tt nil_value []).0
open_-Kept_example =
    open_-Kept driver (config "h") 0 3 connection none crowd crowd-IsInt64 tt [] nil_value nil_value
      [] [] true open_run

-- With 32 bits the count would be 0.
many_lost : to_int 32 many ≡ pos 0
unfolding to_int
many_lost = refl
