-- ===== src/TestComponent/Transaction.antt =====
-- The step of testcomponent/steps.go that updates a document in a transaction, with or without a
-- write from outside in the middle of it.
pub mod Laws
pub mod Conflict
use dp_mongodb.Base.{String, Option, ◌⊎◌, [], none, some, Bool, true, false, not, if◌then◌else◌}
use dp_mongodb.Base.Int.{ℤ, pos}
use dp_mongodb.Base.Text.{str_eq}
use dp_mongodb.Errors.{Err, wrapping}
use dp_mongodb.Bson.{Value, nil_value, int, str, doc, field, end, by_id, ascending_id}
use dp_mongodb.Mongo.{DriverCollection}
use dp_mongodb.Collection.Types.{Return, returned}
use dp_mongodb.Collection.Read as Read
use dp_mongodb.Collection.Write as Write
use dp_mongodb.Transaction.{SessionDriver, SessionOptions, TransactionFunc, run_transaction}
use dp_mongodb.TestComponent.Programs.{Program, ◌>>=◌, ◌>>◌, call}
use dp_mongodb.TestComponent.Results.{is_none}
use dp_mongodb.TestComponent.Queries.{zero_model}
use dp_mongodb.TestComponent.{DataModel, to_value, Toolkit, Component, assert, step_error}

-- The driver's sessions, over the states and contexts of a collection.
pub record Sessions (C : DriverCollection) : Type 1 where
  pub Session : Type 0
  pub start_session : SessionOptions → C.State → (Session ⊎ Err) × C.State
  pub start_transaction : Session → C.State → Option Err × C.State
  pub session_context : C.Context → Session → C.Context
  pub abort_transaction : Session → C.Context → C.State → Option Err × C.State
  pub commit_transaction : Session → C.Context → C.State → Option Err × C.State
  pub with_transaction :
      Session
      → C.Context
      → (C.Context → C.State → (Value × Option Err) × C.State)
      → C.State
      → (Value × Option Err) × C.State

abbrev pub driver : {C : DriverCollection} → Sessions C → SessionDriver
driver {C} D = record {
  State = C.State;
  Context = C.Context;
  Session = D.Session;
  start_session = D.start_session;
  start_transaction = D.start_transaction;
  session_context = D.session_context;
  abort_transaction = D.abort_transaction;
  commit_transaction = D.commit_transaction;
  with_transaction = D.with_transaction;
}

-- `obj.Name`, of a `dataModel` as a value
abbrev pub name_of : Value → String
name_of (doc (field i v (field k (str n) fs))) = n
name_of _ = ""

-- `obj.Name = name`
abbrev pub with_name : String → Value → Value
with_name name (doc (field i v (field k n fs))) = doc (field i v (field k (str name) fs))
with_name name v = v

-- `_, err = …`. The writes of a collection never dereference a nil pointer.
abbrev pub err_of : {A : Type 0} → Return A → Option Err
err_of (returned a e) = e
err_of _ = none

-- The document that the step is about has the id 1: `bson.M{"_id": 1}`.
module _ (T : Toolkit) (C : DriverCollection) (D : Sessions C) (ctx : C.Context) where
  -- The write in the transaction, and what follows it. `sprintf` is the text of `fmt.Errorf`
  -- for a format, the collection's name and an error.
  unfoldable pub rename : (String → Err → String) → Value → TransactionFunc (driver D)
  rename sprintf obj transaction_ctx s =
      if str_eq (name_of obj) "first"
      then (let obj = with_name "second" obj in
          let (r, t) =
            Write.update_one C transaction_ctx ascending_id (doc (field "$set" obj end)) s in
          elim (err_of r) [
            | some e ↦ (
              (
                nil_value,
                some (wrapping (sprintf "could not write object in collection (%s): %w" e) e),
              ),
              t,
            )
            | none ↦ ((obj, none), t)
          ])
      else ((obj, none), s)

  -- The function that is run in the transaction.
  unfoldable pub update_in_transaction : (String → Err → String) → Bool → TransactionFunc (driver D)
  unfolding rename
  update_in_transaction sprintf interference transaction_ctx s =
      let (found, t) = Read.find_one C transaction_ctx ascending_id (to_value zero_model) [] s in
      elim found.err [
        | some e ↦ (
          (nil_value, some (wrapping (sprintf "could not find object in collection (%s): %w" e) e)),
          t,
        )
        | none ↦
            (if interference
              then (let (r, u) =
                    Write.update_one C ctx ascending_id
                      (doc (field "$set" (doc (field "name" (str "third") end)) end)) t in
                  elim (err_of r) [
                    | some e ↦ (
                      (
                        nil_value,
                        some (
                            wrapping (sprintf "interleave write failed in collection (%s): %w" e)
                              e),
                      ),
                      u,
                    )
                    | none ↦ rename sprintf found.result transaction_ctx u
                  ])
              else rename sprintf found.result transaction_ctx t)
      ]

  -- `runTransaction`
  unfoldable pub run_transaction_step :
      (String → Err → String) → String → Program (Component T × C.State) (Unit {0})
  unfolding update_in_transaction
  run_transaction_step sprintf interference = do
    let interferes = str_eq interference "with"
    (res, e) ←
        call (run_transaction (driver D) ctx false (update_in_transaction sprintf interferes))
    assert T (if interferes then not (is_none e) else is_none e)
    step_error T
