-- ===== src/Transaction/Retries.antt =====
-- `RunTransaction` with retries, at a driver whose `WithTransaction` does what it documents.
use dp_mongodb.Base.{◌≡◌, refl, ap, ◌∙◌, sym, ◌⊎◌, inl, inr, true, Option, none, some}
use dp_mongodb.Errors.{Err, wrap_mongo_error}
use dp_mongodb.Bson.{Value, nil_value}
use dp_mongodb.Transaction.{SessionDriver, TransactionFunc, run_transaction}
use dp_mongodb.Transaction.Laws.{IsTransactional, IsInside, wanted, called, started-cases}
use dp_mongodb.Transaction.Attempts.{
  Phase, starting, committing, Attempts, not_begun, given_up, run_again, succeeded, committed,
  commit_again, start_again, uncommitted, ran, FailedCommits, none_yet, one_more, IsRetrying,
}

module _ (D : SessionDriver) (L : IsTransactional D) (ctx : D.Context)
    (fn : TransactionFunc D) where
  open D use {State, Session}
  open L use {stored, seen}

  -- The session that was started first.
  abbrev pub IsOpened : State → Session → Type 0
  IsOpened s session = (D.start_session wanted s).0 ≡ inl session

  -- A transaction of the session was started, before which nothing had been stored, at `t`.
  pub record IsBegun (s : State) (session : Session) (t : State) : Type 0 where
    pub before : State
    pub unchanged : stored before ≡ stored s
    pub begun : D.start_transaction session before ≡ (none, t)

  -- How a call that began at `s` has ended.
  pub data Retried (s : State) (out : (Value × Option Err) × State) : Type 0 where
    -- there was no session
    no_session :
        (e : Err)
        → (D.start_session wanted s).0 ≡ inr e
        → out ≡ ((nil_value, wrap_mongo_error (some e)), (D.start_session wanted s).1)
        → stored out.1 ≡ stored s
        → Retried s out
    -- a transaction could not be started
    not_started :
        (session : Session) (t : State) (e : Err)
        → IsOpened s session
        → stored t ≡ stored s
        → D.start_transaction session t ≡ (some e, out.1)
        → out.0.1 ≡ some e
        → stored out.1 ≡ stored s
        → Retried s out
    -- the last run of the function failed, and no run has left anything
    rolled_back :
        (session : Session) (t : State) (e : Err)
        → IsOpened s session
        → IsBegun s session t
        → (called D L ctx fn session t).0.1 ≡ some e
        → out.0.1 ≡ some e
        → stored out.1 ≡ stored s
        → Retried s out
    -- the last run of the function succeeded, and was committed
    done :
        (session : Session) (t : State)
        → IsOpened s session
        → IsBegun s session t
        → (called D L ctx fn session t).0.1 ≡ none
        → out.0 ≡ ((called D L ctx fn session t).0.0, none)
        → stored out.1 ≡ seen session (called D L ctx fn session t).1
        → Retried s out
    -- the last run of the function succeeded, and the last commit did not
    not_committed :
        (session : Session) (t u : State) (e : Err)
        → IsOpened s session
        → IsBegun s session t
        → (called D L ctx fn session t).0.1 ≡ none
        → D.commit_transaction session (D.session_context ctx session) u ≡ (some e, out.1)
        → out.0.1 ≡ some e
        → (stored out.1 ≡ stored s) ⊎ (stored out.1 ≡ seen session (called D L ctx fn session t).1)
        → Retried s out

  module _ (R : IsRetrying D L) (isolated : IsInside D L fn) (session : Session) (s : State)
      (opened : IsOpened s session) where
    open R use {IsTransient, seen-commit, stored-transient}

    abbrev at : D.Context
    at = D.session_context ctx session

    -- The last run of the function, which succeeded, and the commits that have failed since.
    record Answered (res : Value) (u : State) : Type 0 where
      start : State
      is_begun : IsBegun s session start
      succeeds : (fn at start).0 ≡ (res, none)
      commits : FailedCommits D session at (fn at start).1 u
      same : seen session u ≡ seen session (fn at start).1
      all_or_nothing : (stored u ≡ stored s) ⊎ (stored u ≡ seen session (fn at start).1)

    abbrev Going : Phase State → Type 0
    Going (starting t) = stored t ≡ stored s
    Going (committing res u) = Answered res u

    stored-started :
        (t : State) → stored t ≡ stored s → stored (D.start_transaction session t).1 ≡ stored s
    stored-started t h = L.stored-start_transaction session t ∙ h

    stored-ran :
        (t : State) → stored t ≡ stored s → stored (ran D IsTransient session ctx fn t).1 ≡ stored s
    stored-ran t h = isolated session ctx _ ∙ stored-started t h

    started-IsBegun :
        (t : State)
        → stored t ≡ stored s
        → (D.start_transaction session t).0 ≡ none
        → IsBegun s session (D.start_transaction session t).1
    started-IsBegun t b h = record {
      before = t;
      unchanged = b;
      begun = ap (λ x. (x, (D.start_transaction session t).1)) h;
    }

    -- A commit that fails leaves all or nothing.
    failed_commit :
        {res : Value} (u : State) (b : Answered res u) (e : Err)
        → (D.commit_transaction session at u).0 ≡ some e
        → (stored (D.commit_transaction session at u).1 ≡ stored s)
          ⊎ (stored (D.commit_transaction session at u).1 ≡ seen session (fn at b.start).1)
    failed_commit u b e h = elim (L.stored-commit_failed session at u e h) [
      | inr all ↦ inr (all ∙ b.same)
      | inl kept ↦ elim b.all_or_nothing [
        | inl nothing ↦ inl (kept ∙ nothing)
        | inr all ↦ inr (kept ∙ all)
      ]
    ]

    Attempts-Retried :
        {p : Phase State} {out : (Value × Option Err) × State}
        → Attempts D IsTransient session ctx fn p out
        → Going p
        → Retried s out
    Attempts-Retried (not_begun {s = t} res e h) b =
        not_started session t e opened b (ap (λ x. (x, (D.start_transaction session t).1)) h) refl
          (stored-started t b)
    Attempts-Retried (given_up {s = t} res e h f) b =
        rolled_back session (D.start_transaction session t).1 e opened (started-IsBegun t b h) f
          refl (L.stored-abort session at _ ∙ stored-ran t b)
    Attempts-Retried (run_again {s = t} e _ h f r) b =
        Attempts-Retried r (L.stored-abort session at _ ∙ stored-ran t b)
    Attempts-Retried (succeeded {s = t} h f r) b = Attempts-Retried r (record {
      start = (D.start_transaction session t).1;
      is_begun = started-IsBegun t b h;
      succeeds = λ i. ((ran D IsTransient session ctx fn t).0.0, f i);
      commits = none_yet;
      same = refl;
      all_or_nothing = inl (stored-ran t b);
    })
    Attempts-Retried (committed {s = u} h) b =
        done session b.start opened b.is_begun (ap (λ x. x.1) b.succeeds)
          (ap (λ x. (x.0, none)) (sym b.succeeds)) (L.stored-commit session at u h ∙ b.same)
    Attempts-Retried (commit_again {s = u} e h r) b = Attempts-Retried r (record {
      start = b.start;
      is_begun = b.is_begun;
      succeeds = b.succeeds;
      commits = one_more e b.commits h;
      same = seen-commit session at u e h ∙ b.same;
      all_or_nothing = failed_commit u b e h;
    })
    Attempts-Retried (start_again {s = u} e transient h r) b = Attempts-Retried r (
        stored-transient session at (fn at b.start).1 u e b.commits transient h
        ∙ isolated session ctx b.start
        ∙ ap (λ x. stored x.1) (sym b.is_begun.begun)
        ∙ stored-started b.is_begun.before b.is_begun.unchanged)
    Attempts-Retried (uncommitted {s = u} answer e h) b =
        not_committed session b.start u e opened b.is_begun (ap (λ x. x.1) b.succeeds)
          (ap (λ x. (x, (D.commit_transaction session at u).1)) h) refl (failed_commit u b e h)

  -- `RunTransaction` with retries, of a function whose changes all belong to the transaction, at a
  -- driver whose `WithTransaction` retries as it documents: if there is no error, the answer and
  -- the documents that are stored are those of the last run of the function, which succeeded, and
  -- before which nothing had been stored; the runs before it have left nothing. If there is an
  -- error, it is the function's, that of a transaction that could not be started or, wrapped, that
  -- of a session that could not be, and nothing that is stored has changed; or it is that of a
  -- commit, and what is stored is the one or the other.
  pub run_transaction-Retried :
      IsRetrying D L → IsInside D L fn → (s : State) → Retried s (run_transaction D ctx true fn s)
  unfolding run_transaction
  run_transaction-Retried R isolated s =
      let kept = L.stored-start_session wanted s in
      elim (started-cases (D.start_session wanted s).0) [
        | inl (session, h) ↦
            rw (h, run_transaction)
              (Attempts-Retried R isolated session s h (R.attempts session ctx fn _) kept)
        | inr (e, h) ↦ rw (h, run_transaction) (no_session e h refl kept)
      ]
