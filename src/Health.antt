-- ===== src/Health.antt =====
-- health/health.go: the health check of a connection and of the collections that a service expects.
pub mod Laws
pub mod Order
use dp_mongodb.Base.{
  ℕ, String, ◌<>◌, Bool, true, false, ◌&&◌, ◌||◌, Option, none, some, List, [], ◌∷◌, ◌++◌,
  if◌then◌else◌,
}
use dp_mongodb.Base.Text.{str_eq}
use dp_mongodb.Errors.{Err, named, error, collection_does_not_exist, mongo_db_connection}
use dp_mongodb.Connection.{ConnectedClient, ping, list_collections_for}

abbrev pub timeout_in_seconds : ℕ
timeout_in_seconds = 5

abbrev pub healthy_message : String
healthy_message = "mongodb is OK"

abbrev pub healthy_collections_message : String
healthy_collections_message = " and all expected collections exist"

-- `databaseCollection`: a Go map, as the list of its entries in the order in which a loop over it
-- meets them. A nil map has none.
abbrev pub Expected : Type 0
Expected = List (String × List String)

-- The statuses of dp-healthcheck that the code uses.
pub data Status : Type 0 where
  status_ok : Status
  status_critical : Status

-- A call of `state.Update`, whose own error the code does not read.
pub record Update : Type 0 where
  pub status : Status
  pub message : String
  pub status_code : ℕ

unfoldable pub find : List String → String → Bool
find [] val = false
find (item ∷ slice) val = if str_eq item val then true else find slice val

-- The inner loop of `checkCollections`: no collection is missing.
unfoldable pub all_found : List String → List String → Bool
unfolding find
all_found collections_in_db [] = true
all_found collections_in_db (c ∷ cs) =
    if find collections_in_db c then all_found collections_in_db cs else false

module _ (D : ConnectedClient) where
  open D use {Context, State}

  unfoldable pub check_collections : Context → Expected → State → Option Err × State
  unfolding all_found
  check_collections ctx [] s = (none, s)
  check_collections ctx ((database, collections) ∷ rest) s =
      let ((collections_in_db, err), t) = list_collections_for D ctx database s in
      let next = check_collections ctx rest t in
      elim err [
        | some e ↦ (some (named mongo_db_connection), t)
        | none ↦
            if all_found collections_in_db collections
            then next
            else (some (named collection_does_not_exist), t)
      ]

  unfoldable pub healthcheck : Context → State → Option Err × State
  healthcheck ctx s = ping D ctx timeout_in_seconds s

  abbrev pub critical : Err → List Update
  critical e =
      record { status = status_critical; message = error D.name_text e; status_code = 0 } ∷ []

  abbrev pub fine : String → List Update
  fine message = record { status = status_ok; message = message; status_code = 0 } ∷ []

  -- The end of `Checker`, for the error of `checkCollections`.
  abbrev pub report : Option Err → List Update
  report none = fine (healthy_message <> healthy_collections_message)
  report (some e) = critical e

  -- `CheckMongoClient`, whose two functions are fields. The connection of its `client` is `D`.
  pub record CheckMongoClient : Type 0 where
    pub database_collection : Expected
    pub healthcheck : Context → State → Option Err × State
    pub check_collections : Context → State → Option Err × State

  unfoldable pub new_client_with_collections : Expected → CheckMongoClient
  unfolding check_collections healthcheck
  new_client_with_collections expected = record {
    database_collection = expected;
    healthcheck = healthcheck;
    check_collections = λ ctx. check_collections ctx expected;
  }

  unfoldable pub new_client : CheckMongoClient
  unfolding new_client_with_collections
  new_client = new_client_with_collections []

  -- `Checker`: the updates of the state, in their order, and the error that it returns
  unfoldable pub checker : CheckMongoClient → Context → State → (List Update × Option Err) × State
  checker c ctx s =
      let (err, t) = c.healthcheck ctx s in
      let (missing, u) = c.check_collections ctx t in
      elim err [
        | some e ↦ ((critical e, none), t)
        | none ↦ elim c.database_collection [
          | [] ↦ ((fine healthy_message, none), t)
          | entry ∷ rest ↦ ((report missing, none), u)
        ]
      ]
