-- ===== src/Connection.antt =====
-- mongodb/connection.go and mongodb/graceful.go: the calls on a connection, over the driver's client.
pub mod Handles
pub mod Close
use Prim.Native.Nat.{◌%◌, ◌^◌}
use dp_mongodb.Base.{
  ℕ, zero, ◌+◌, ◌-◌, ◌*◌, String, ◌<>◌, Option, none, some, List, [], leb, if◌then◌else◌,
}
use dp_mongodb.Base.Int.{ℤ, pos, negsuc}
use dp_mongodb.Errors.{Err, Name, text, error}
use dp_mongodb.Bson.{Value}

-- The client of the driver, connected. Its databases are known by their names.
pub record ConnectedClient : Type 1 where
  pub Context : Type 0
  pub State : Type 0
  pub name_text : Name → String
  -- `context.WithTimeout`, with a `time.Duration` as its pattern of 64 bits
  pub with_timeout : Context → ℕ → Context
  pub ping : Context → State → Option Err × State
  -- `bson.D{{"name", bson.D{{"$ne", ""}}}}`
  pub named_filter : Value
  pub list_collection_names : String → Context → Value → State → (List String × Option Err) × State
  pub drop : String → Context → State → Option Err × State
  -- `RunCommand(…).Err()`
  pub run_command : String → Context → Value → State → Option Err × State

-- `time.Second`
abbrev second : ℕ
second = 1_000_000_000

module _ (D : ConnectedClient) where
  open D use {Context, State}

  -- `timeoutInSeconds*time.Second` wraps around.
  unfoldable pub ping : Context → ℕ → State → Option Err × State
  ping ctx timeout_in_seconds s =
      let (err, t) = D.ping (D.with_timeout ctx ((timeout_in_seconds * second) % 2 ^ 64)) s in
      (
        elim err [
          | none ↦ none
          | some e ↦ some (text ("Failed to ping datastore: " <> error D.name_text e))
        ],
        t,
      )

  unfoldable pub list_collections_for :
      Context → String → State → (List String × Option Err) × State
  list_collections_for ctx database s =
      let ((collection_names, err), t) = D.list_collection_names database ctx D.named_filter s in
      elim err [ some e ↦ (([], some e), t) | none ↦ ((collection_names, none), t) ]

  -- The field `database` of the connection is the first argument.
  unfoldable pub drop_database : String → Context → State → Option Err × State
  drop_database database ctx s = D.drop database ctx s

  unfoldable pub run_command : String → Context → Value → State → Option Err × State
  run_command database ctx command s = D.run_command database ctx command s
