-- ===== src/Transaction/Attempts.antt =====
-- What the driver documents of `WithTransaction`, the path of `RunTransaction` with retries.
use dp_mongodb.Base.{◌≡◌, Option, none, some}
use dp_mongodb.Errors.{Err}
use dp_mongodb.Bson.{Value}
use dp_mongodb.Transaction.{SessionDriver, TransactionFunc}
use dp_mongodb.Transaction.Laws.{IsTransactional}

-- What `WithTransaction` is about to do: to start a transaction, or to commit the one in which the
-- function has answered with a value.
pub data Phase (S : Type 0) : Type 0 where
  starting : S → Phase S
  committing : Value → S → Phase S

-- What the driver documents of `WithTransaction`: it starts a transaction and runs the function. If
-- the function fails it aborts, whether that succeeds or not, and then returns the function's error,
-- or starts again if the error is transient. If the function succeeds it commits. If the commit
-- fails it commits again, or starts again if the error is transient, or returns the error.
module _ (D : SessionDriver) (IsTransient : Err → Type 0) (session : D.Session) (ctx : D.Context)
    (fn : TransactionFunc D) where
  open D use {State}

  abbrev inside : D.Context
  inside = D.session_context ctx session

  -- A run of the function in a transaction that is started at a state.
  abbrev pub ran : State → (Value × Option Err) × State
  ran s = fn inside (D.start_transaction session s).1

  pub data Attempts : Phase State → (Value × Option Err) × State → Type 0 where
    not_begun :
        {s : State} (res : Value) (e : Err)
        → (D.start_transaction session s).0 ≡ some e
        → Attempts (starting s) ((res, some e), (D.start_transaction session s).1)
    given_up :
        {s : State} (res : Value) (e : Err)
        → (D.start_transaction session s).0 ≡ none
        → (ran s).0.1 ≡ some e
        → Attempts (starting s) ((res, some e), (D.abort_transaction session inside (ran s).1).1)
    run_again :
        {s : State} {out : (Value × Option Err) × State} (e : Err)
        → IsTransient e
        → (D.start_transaction session s).0 ≡ none
        → (ran s).0.1 ≡ some e
        → Attempts (starting (D.abort_transaction session inside (ran s).1).1) out
        → Attempts (starting s) out
    succeeded :
        {s : State} {out : (Value × Option Err) × State}
        → (D.start_transaction session s).0 ≡ none
        → (ran s).0.1 ≡ none
        → Attempts (committing (ran s).0.0 (ran s).1) out
        → Attempts (starting s) out
    committed :
        {res : Value} {s : State}
        → (D.commit_transaction session inside s).0 ≡ none
        → Attempts (committing res s) ((res, none), (D.commit_transaction session inside s).1)
    commit_again :
        {res : Value} {s : State} {out : (Value × Option Err) × State} (e : Err)
        → (D.commit_transaction session inside s).0 ≡ some e
        → Attempts (committing res (D.commit_transaction session inside s).1) out
        → Attempts (committing res s) out
    start_again :
        {res : Value} {s : State} {out : (Value × Option Err) × State} (e : Err)
        → IsTransient e
        → (D.commit_transaction session inside s).0 ≡ some e
        → Attempts (starting (D.commit_transaction session inside s).1) out
        → Attempts (committing res s) out
    uncommitted :
        {res : Value} {s : State} (answer : Value) (e : Err)
        → (D.commit_transaction session inside s).0 ≡ some e
        → Attempts (committing res s) ((answer, some e), (D.commit_transaction session inside s).1)

-- Commits that have failed, from one state to another.
pub data FailedCommits (D : SessionDriver) (session : D.Session) (ctx : D.Context) (s : D.State)
    : D.State → Type 0 where
  none_yet : FailedCommits D session ctx s s
  one_more :
      {t : D.State} (e : Err)
      → FailedCommits D session ctx s t
      → (D.commit_transaction session ctx t).0 ≡ some e
      → FailedCommits D session ctx s (D.commit_transaction session ctx t).1

-- A driver that retries so. A commit that fails leaves what is seen in the transaction; if its error
-- is transient, neither it nor the commits that failed before it have stored anything.
pub record IsRetrying (D : SessionDriver) (L : IsTransactional D) : Type 1 where
  pub IsTransient : Err → Type 0
  pub attempts :
      (session : D.Session) (ctx : D.Context) (fn : TransactionFunc D) (s : D.State)
      → Attempts D IsTransient session ctx fn (starting s) (D.with_transaction session ctx fn s)
  pub seen-commit :
      (session : D.Session) (ctx : D.Context) (s : D.State) (e : Err)
      → (D.commit_transaction session ctx s).0 ≡ some e
      → L.seen session (D.commit_transaction session ctx s).1 ≡ L.seen session s
  pub stored-transient :
      (session : D.Session) (ctx : D.Context) (s t : D.State) (e : Err)
      → FailedCommits D session ctx s t
      → IsTransient e
      → (D.commit_transaction session ctx t).0 ≡ some e
      → L.stored (D.commit_transaction session ctx t).1 ≡ L.stored s
