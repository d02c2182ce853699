-- ===== src/Transaction.antt =====
-- mongodb/transaction.go: a function run in a transaction, over the driver's sessions.
pub mod Laws
pub mod Failures
pub mod Attempts
pub mod Retries
use dp_mongodb.Base.{◌⊎◌, inl, inr, Bool, true, false, Option, none, some, if◌then◌else◌}
use dp_mongodb.Errors.{Err, wrap_mongo_error}
use dp_mongodb.Bson.{Value, nil_value}

-- The read preference, read concern and write concern are those of the one session that the code asks
-- for; the driver's types for them are named here by what the code sets.
pub data Preference : Type 0 where
  primary : Preference

pub data Concern : Type 0 where
  snapshot : Concern
  majority : Concern

pub record SessionOptions : Type 0 where
  pub causal_consistency : Bool
  pub default_read_preference : Preference
  pub default_read_concern : Concern
  pub default_write_concern : Concern

abbrev pub session_options : SessionOptions
session_options = record {
  causal_consistency = false;
  default_read_preference = primary;
  default_read_concern = snapshot;
  default_write_concern = majority;
}

-- The driver's client and its sessions.
pub record SessionDriver : Type 1 where
  pub State : Type 0
  pub Context : Type 0
  pub Session : Type 0
  pub start_session : SessionOptions → State → (Session ⊎ Err) × State
  pub start_transaction : Session → State → Option Err × State
  -- `mongo.NewSessionContext`
  pub session_context : Context → Session → Context
  pub abort_transaction : Session → Context → State → Option Err × State
  pub commit_transaction : Session → Context → State → Option Err × State
  pub with_transaction :
      Session
      → Context
      → (Context → State → (Value × Option Err) × State)
      → State
      → (Value × Option Err) × State

module _ (D : SessionDriver) where
  open D use {State, Context, Session}

  -- `TransactionFunc`
  abbrev pub TransactionFunc : Type 0
  TransactionFunc = Context → State → (Value × Option Err) × State

  -- What follows the call of `fn`, with its answer.
  unfoldable pub end_transaction :
      Session → Context → (Value × Option Err) × State → (Value × Option Err) × State
  end_transaction session ctx ((res, some e), s) =
      let (failed, t) = D.abort_transaction session ctx s in
      elim failed [ some me ↦ ((res, wrap_mongo_error (some me)), t) | none ↦ ((res, some e), t) ]
  end_transaction session ctx ((res, none), s) =
      let (err, t) = D.commit_transaction session ctx s in ((res, wrap_mongo_error err), t)

  -- The session once it is there, with no retries.
  unfoldable pub run_once :
      Session → Context → TransactionFunc → State → (Value × Option Err) × State
  unfolding end_transaction
  run_once session ctx fn s =
      let (err, t) = D.start_transaction session s in
      let session_ctx = D.session_context ctx session in
      elim err [
        | some e ↦ ((nil_value, wrap_mongo_error (some e)), t)
        | none ↦ end_transaction session session_ctx (fn session_ctx t)
      ]

  unfoldable pub run_transaction :
      Context → Bool → TransactionFunc → State → (Value × Option Err) × State
  unfolding run_once
  run_transaction ctx with_retries fn s =
      let (started, t) = D.start_session session_options s in
      elim started [
        | inr e ↦ ((nil_value, wrap_mongo_error (some e)), t)
        | inl session ↦
            if with_retries then D.with_transaction session ctx fn t else run_once session ctx fn t
      ]
