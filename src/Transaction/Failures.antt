-- ===== src/Transaction/Failures.antt =====
-- `RunTransaction` of a function that fails.
use dp_mongodb.Base.{◌≡◌, refl, inl, inr, false, Option, Option-cases, none, some}
use dp_mongodb.Errors.{Err}
use dp_mongodb.Bson.{Value}
use dp_mongodb.Collection.Settled.{wrap_mongo_error-some}
use dp_mongodb.Transaction.{
  SessionDriver, session_options, TransactionFunc, end_transaction, run_once, run_transaction,
}

abbrev pub Failed : {A S : Type 0} → (A × Option Err) × S → Type 0
Failed r = (e : Err) × (r.0.1 ≡ some e)

module _ (D : SessionDriver) where
  open D use {State, Context, Session}

  end_transaction-Failed :
      (session : Session) (ctx : Context) (r : (Value × Option Err) × State)
      → Failed r
      → Failed (end_transaction D session ctx r)
  unfolding end_transaction
  end_transaction-Failed session ctx ((res, none), s) (e, q) = absurd cc
  end_transaction-Failed session ctx ((res, some x), s) (e, q) =
      elim (Option-cases (D.abort_transaction session ctx s).0) [
        | inl h ↦ rw (h, end_transaction) (x, refl)
        | inr (me, h) ↦ rw (h, end_transaction) (wrap_mongo_error-some me)
      ]

  -- Once there are a session and its transaction.
  pub run_transaction-Failed :
      (ctx : Context) (fn : TransactionFunc D) (s : State) (session : Session)
      → let opened = D.start_session session_options s in
        let begun = D.start_transaction session opened.1 in
        opened.0 ≡ inl session
        → begun.0 ≡ none
        → Failed (fn (D.session_context ctx session) begun.1)
        → Failed (run_transaction D ctx false fn s)
  unfolding run_transaction run_once
  run_transaction-Failed ctx fn s session h k failed =
      rw (h, run_transaction)
        (rw (k, run_once) (end_transaction-Failed session (D.session_context ctx session) _ failed))
