-- ===== src/Transaction/Laws.antt =====
-- `RunTransaction` without retries, at sessions as the driver documents them.
use dp_mongodb.Base.{◌≡◌, ap, ◌∙◌, refl, ◌⊎◌, inl, inr, false, Option, Option-cases, none, some}
use dp_mongodb.Errors.{Err, wrap_mongo_error}
use dp_mongodb.Bson.{Value, nil_value}
use dp_mongodb.Transaction.{
  SessionDriver, SessionOptions, primary, snapshot, majority, TransactionFunc, end_transaction,
  run_once, run_transaction,
}

-- What the driver documents of sessions and transactions.
pub record IsTransactional (D : SessionDriver) : Type 1 where
  -- the documents that are stored, as seen outside of the transaction, and those as seen in it
  pub Documents : Type 0
  pub stored : D.State → Documents
  pub seen : D.Session → D.State → Documents
  pub stored-start_session : (o : _) (s : D.State) → stored (D.start_session o s).1 ≡ stored s
  pub stored-start_transaction :
      (session : D.Session) (s : D.State) → stored (D.start_transaction session s).1 ≡ stored s
  pub stored-abort :
      (session : D.Session) (ctx : D.Context) (s : D.State)
      → stored (D.abort_transaction session ctx s).1 ≡ stored s
  -- a commit that succeeds stores what is seen in the transaction
  pub stored-commit :
      (session : D.Session) (ctx : D.Context) (s : D.State)
      → (D.commit_transaction session ctx s).0 ≡ none
      → stored (D.commit_transaction session ctx s).1 ≡ seen session s
  -- a transaction is all or nothing, also where it is not known how its commit went
  pub stored-commit_failed :
      (session : D.Session) (ctx : D.Context) (s : D.State) (e : Err)
      → (D.commit_transaction session ctx s).0 ≡ some e
      → (stored (D.commit_transaction session ctx s).1 ≡ stored s)
        ⊎ (stored (D.commit_transaction session ctx s).1 ≡ seen session s)

-- The session that is wanted: not causally consistent, with reads of a snapshot from the primary, and
-- writes to a majority.
abbrev pub wanted : SessionOptions
wanted = record {
  causal_consistency = false;
  default_read_preference = primary;
  default_read_concern = snapshot;
  default_write_concern = majority;
}

pub started-cases : {A : Type 0} (x : A ⊎ Err) → ((a : A) × (x ≡ inl a)) ⊎ ((e : Err) × (x ≡ inr e))
started-cases (inl a) = inl (a, refl)
started-cases (inr e) = inr (e, refl)

module _ (D : SessionDriver) (L : IsTransactional D) where
  open D use {State, Context, Session}
  open L use {stored, seen}

  -- In a session's context, the function makes no changes that can be seen outside of the
  -- transaction.
  abbrev pub IsInside : TransactionFunc D → Type 0
  IsInside fn =
      (session : Session) (ctx : Context) (s : State)
      → stored (fn (D.session_context ctx session) s).1 ≡ stored s

  -- The error after a failure `e` of the function, at the state of the abort: `e` itself, or the one
  -- of the abort if that fails.
  pub data FailsWith (session : Session) (ctx : Context) (s : State) (e : Err) (err : Option Err)
      : Type 0 where
    with_its_own :
        (D.abort_transaction session ctx s).0 ≡ none → err ≡ some e → FailsWith session ctx s e err
    with_the_abort :
        (me : Err)
        → (D.abort_transaction session ctx s).0 ≡ some me
        → err ≡ wrap_mongo_error (some me)
        → FailsWith session ctx s e err

  -- From `s` on, the session has been started, and then its transaction, at `t`.
  pub record Begun (s : State) (session : Session) (t : State) : Type 0 where
    pub opened : (D.start_session wanted s).0 ≡ inl session
    pub begun : D.start_transaction session (D.start_session wanted s).1 ≡ (none, t)

  -- The function, called in the session's context.
  abbrev pub called : Context → TransactionFunc D → Session → State → (Value × Option Err) × State
  called ctx fn session t = fn (D.session_context ctx session) t

  -- How a run that began at `s` has ended.
  pub data Ended (ctx : Context) (fn : TransactionFunc D) (s : State)
      (out : (Value × Option Err) × State) : Type 0 where
    -- the session could not be started
    no_session :
        (e : Err)
        → (D.start_session wanted s).0 ≡ inr e
        → out ≡ ((nil_value, wrap_mongo_error (some e)), (D.start_session wanted s).1)
        → stored out.1 ≡ stored s
        → Ended ctx fn s out
    -- its transaction could not be started
    no_transaction :
        (session : Session) (e : Err)
        → (D.start_session wanted s).0 ≡ inl session
        → (D.start_transaction session (D.start_session wanted s).1).0 ≡ some e
        → out ≡ (
          (nil_value, wrap_mongo_error (some e)),
          (D.start_transaction session (D.start_session wanted s).1).1,
        )
        → stored out.1 ≡ stored s
        → Ended ctx fn s out
    -- the function failed, and the transaction was aborted
    rolled_back :
        (session : Session) (t : State) (e : Err)
        → Begun s session t
        → (called ctx fn session t).0.1 ≡ some e
        → out.0.0 ≡ (called ctx fn session t).0.0
        → FailsWith session (D.session_context ctx session) (called ctx fn session t).1 e out.0.1
        → out.1
          ≡ (D.abort_transaction session
              (D.session_context ctx session)
              (called ctx fn session t).1).1
        → stored out.1 ≡ stored s
        → Ended ctx fn s out
    -- it succeeded, and so did the commit
    done :
        (session : Session) (t : State)
        → Begun s session t
        → (called ctx fn session t).0.1 ≡ none
        → D.commit_transaction session (D.session_context ctx session) (called ctx fn session t).1
          ≡ (none, out.1)
        → out.0 ≡ ((called ctx fn session t).0.0, none)
        → stored out.1 ≡ seen session (called ctx fn session t).1
        → Ended ctx fn s out
    -- it succeeded, and the commit did not
    not_committed :
        (session : Session) (t : State) (e : Err)
        → Begun s session t
        → (called ctx fn session t).0.1 ≡ none
        → D.commit_transaction session (D.session_context ctx session) (called ctx fn session t).1
          ≡ (some e, out.1)
        → out.0.1 ≡ wrap_mongo_error (some e)
        → (stored out.1 ≡ stored s) ⊎ (stored out.1 ≡ seen session (called ctx fn session t).1)
        → Ended ctx fn s out

  -- After a failure of the function.
  end_transaction-FailsWith :
      (session : Session) (ctx : Context) (r : (Value × Option Err) × State) (e : Err)
      → r.0.1 ≡ some e
      → let out = end_transaction D session ctx r in
        (out.0.0 ≡ r.0.0)
        × FailsWith session ctx r.1 e out.0.1
        × (out.1 ≡ (D.abort_transaction session ctx r.1).1)
  unfolding end_transaction
  end_transaction-FailsWith session ctx ((res, none), s) e q = absurd cc
  end_transaction-FailsWith session ctx ((res, some x), s) e q =
      elim (Option-cases (D.abort_transaction session ctx s).0) [
        | inl h ↦ rw (h, end_transaction) (refl, with_its_own h q, refl)
        | inr (me, h) ↦ rw (h, end_transaction) (refl, with_the_abort me h refl, refl)
      ]

  end_transaction-commit :
      (session : Session) (ctx : Context) (r : (Value × Option Err) × State)
      → r.0.1 ≡ none
      → let (err, t) = D.commit_transaction session ctx r.1 in
        end_transaction D session ctx r ≡ ((r.0.0, wrap_mongo_error err), t)
  unfolding end_transaction
  end_transaction-commit session ctx ((res, none), s) q = refl
  end_transaction-commit session ctx ((res, some x), s) q = absurd cc

  end_transaction-Ended :
      (session : Session) (ctx : Context) (fn : TransactionFunc D) (s t : State)
      → Begun s session t
      → stored (called ctx fn session t).1 ≡ stored s
      → Ended ctx fn s
          (end_transaction D session (D.session_context ctx session) (called ctx fn session t))
  unfolding wrap_mongo_error
  end_transaction-Ended session ctx fn s t begun kept =
      let c = D.session_context ctx session in
      let r = fn c t in
      let commit = D.commit_transaction session c r.1 in
      elim (Option-cases r.0.1) [
        | inr (e, h) ↦
            let (same, fails, aborted) = end_transaction-FailsWith session c r e h in
            rolled_back session t e begun h same fails aborted
              (ap stored aborted ∙ L.stored-abort session c r.1 ∙ kept)
        | inl h ↦ elim (Option-cases commit.0) [
          | inl k ↦ rw (end_transaction-commit session c r h) (
              done session t begun h (ap (λ x. (x, commit.1)) k) (rw k refl)
                (L.stored-commit session c r.1 k))
          | inr (e, k) ↦ rw (end_transaction-commit session c r h) (
              not_committed session t e begun h (ap (λ x. (x, commit.1)) k) (ap wrap_mongo_error k)
                (elim (L.stored-commit_failed session c r.1 e k) [
                  | inl same ↦ inl (same ∙ kept)
                  | inr all ↦ inr all
                ]))
        ]
      ]

  run_once-Ended :
      (session : Session) (ctx : Context) (fn : TransactionFunc D) (s : State)
      → IsInside fn
      → (D.start_session wanted s).0 ≡ inl session
      → Ended ctx fn s (run_once D session ctx fn (D.start_session wanted s).1)
  unfolding run_once wrap_mongo_error
  run_once-Ended session ctx fn s inside opened =
      let t = (D.start_session wanted s).1 in
      let (err, u) = D.start_transaction session t in
      let started = L.stored-start_transaction session t ∙ L.stored-start_session wanted s in
      elim (Option-cases err) [
        | inl h ↦
            rw (h, run_once)
              (end_transaction-Ended session ctx fn s u
                (record { opened = opened; begun = ap (λ x. (x, u)) h })
                (inside session ctx u ∙ started))
        | inr (e, h) ↦ rw (h, run_once) (no_transaction session e opened h refl started)
      ]

  -- `RunTransaction` without retries, of a function whose changes all belong to the transaction: if
  -- the function fails, the stored documents are what they were, and the error is the function's
  -- or, if the abort fails, that of the abort; if it succeeds and the commit does, they are what is
  -- seen in the transaction after it, and the answer is the function's; if the commit fails, its
  -- error is returned, and they are the one or the other. Only if a session or its transaction cannot
  -- be started is the function not called, and then nothing that is stored changes.
  pub run_transaction-Ended :
      (ctx : Context) (fn : TransactionFunc D) (s : State)
      → IsInside fn
      → Ended ctx fn s (run_transaction D ctx false fn s)
  unfolding run_transaction wrap_mongo_error
  run_transaction-Ended ctx fn s inside = elim (started-cases (D.start_session wanted s).0) [
    | inl (session, h) ↦ rw (h, run_transaction) (run_once-Ended session ctx fn s inside h)
    | inr (e, h) ↦ rw (h, run_transaction) (no_session e h refl (L.stored-start_session wanted s))
  ]
