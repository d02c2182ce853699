-- ===== src/Tests/Retries.antt =====
-- A server whose commit fails once, with a transient error, and a driver that tries again a number
-- of times.
use mathlib.Core.Path.{subst}
use dp_mongodb.Base.{
  ℕ, zero, suc, ◌≡◌, inl, refl, sym, ap, ◌∙◌, Bool, true, false, Option, none, some,
}
use dp_mongodb.Errors.{Err, text}
use dp_mongodb.Bson.{Value, opaque, nil_value}
use dp_mongodb.Transaction.{SessionDriver, TransactionFunc, run_transaction}
use dp_mongodb.Transaction.Laws.{IsTransactional}
use dp_mongodb.Transaction.Attempts.{
  Phase, starting, committing, Attempts, given_up, succeeded, committed, start_again, uncommitted,
  ran, FailedCommits, none_yet, one_more, IsRetrying,
}
use dp_mongodb.Transaction.Retries.{Retried, run_transaction-Retried}

-- What is stored, what is seen in the transaction, and whether the next commit fails.
abbrev S : Type 0
S = ℕ × ℕ × Bool

abbrev conflict : Err
conflict = text "conflict"

abbrev commit : S → Option Err × S
commit (d, v, true) = (some conflict, (d, v, false))
commit (d, v, false) = (none, (v, v, false))

abbrev begin : S → S
begin s = (s.0, s.0, s.2)

abbrev Run : Type 0
Run = (Value × Option Err) × S

-- What follows a run of the function, with what there is to do if the commit fails.
abbrev finish : (S → Run) → Run → Run
finish retry ((res, some e), t) = ((res, some e), begin t)
finish retry ((res, none), (d, v, true)) = retry (d, v, false)
finish retry ((res, none), (d, v, false)) = ((res, none), (v, v, false))

abbrev tries : ℕ → (S → Run) → S → Run
tries zero fn s = finish (λ t. ((nil_value, some conflict), t)) (fn (begin s))
tries (suc n) fn s = finish (tries n fn) (fn (begin s))

abbrev server : SessionDriver
server = record {
  State = S;
  Context = ℕ;
  Session = ℕ;
  start_session = λ options s. (inl 0, s);
  start_transaction = λ session s. (none, begin s);
  session_context = λ ctx session. session;
  abort_transaction = λ session ctx s. (none, begin s);
  commit_transaction = λ session ctx s. commit s;
  with_transaction = λ session ctx fn s. tries 3 (fn session) s;
}

stored_committed : (s : S) → (commit s).0 ≡ none → (commit s).1.0 ≡ s.1
stored_committed (d, v, true) h = cc
stored_committed (d, v, false) h = refl

failed_keeps :
    (s : S) (e : Err) → (commit s).0 ≡ some e → ((commit s).1.0 ≡ s.0) × ((commit s).1.1 ≡ s.1)
failed_keeps (d, v, true) e h = (refl, refl)
failed_keeps (d, v, false) e h = absurd cc

abbrev server_lawful : IsTransactional server
server_lawful = record {
  Documents = ℕ;
  stored = λ s. s.0;
  seen = λ session s. s.1;
  stored-start_session = λ options s. refl;
  stored-start_transaction = λ session s. refl;
  stored-abort = λ session ctx s. refl;
  stored-commit = λ session ctx s e. stored_committed s e;
  stored-commit_failed = λ session ctx s e h. inl (failed_keeps s e h).0;
}

abbrev Any : Err → Type 0
Any e = Unit {0}

module _ (session : ℕ) (ctx : ℕ) (fn : TransactionFunc server) where
  abbrev Tried : Phase S → Run → Type 0
  Tried = Attempts server Any session ctx fn

  finish-Attempts :
      (retry : S → Run)
      → ((res : Value) (d v : ℕ) → Tried (committing res (d, v, true)) (retry (d, v, false)))
      → (s : S) (r : Run) → ran server Any session ctx fn s ≡ r
      → Tried (starting s) (finish retry r)
  finish-Attempts retry again s ((res, some e), t) q =
      subst (λ (x : Run). Tried (starting s) ((res, some e), begin x.1)) q
        (given_up res e refl (ap (λ x. x.0.1) q))
  finish-Attempts retry again s ((res, none), (d, v, true)) q = succeeded refl (ap (λ x. x.0.1) q) (
      subst (λ (x : Run). Tried (committing x.0.0 x.1) (retry (d, v, false))) (sym q)
        (again res d v))
  finish-Attempts retry again s ((res, none), (d, v, false)) q =
      succeeded refl (ap (λ x. x.0.1) q) (
        subst (λ (x : Run). Tried (committing x.0.0 x.1) ((res, none), (v, v, false))) (sym q)
          (committed refl))

  tries-Attempts : (n : ℕ) (s : S) → Tried (starting s) (tries n (fn session) s)
  tries-Attempts zero s =
      finish-Attempts (λ t. ((nil_value, some conflict), t))
        (λ res d v. uncommitted nil_value conflict refl) s _ refl
  tries-Attempts (suc n) s =
      finish-Attempts (tries n (fn session))
        (λ res d v. start_again conflict tt refl (tries-Attempts n (d, v, false))) s _ refl

stored_failed : (session ctx : ℕ) {s t : S} → FailedCommits server session ctx s t → t.0 ≡ s.0
stored_failed session ctx none_yet = refl
stored_failed session ctx (one_more {t = t} e f h) =
    (failed_keeps t e h).0 ∙ stored_failed session ctx f

retrying : IsRetrying server server_lawful
retrying = record {
  IsTransient = Any;
  attempts = λ session ctx fn s. tries-Attempts session ctx fn 3 s;
  seen-commit = λ session ctx s e h. (failed_keeps s e h).1;
  stored-transient =
      λ session ctx s t e f transient h. (failed_keeps t e h).0 ∙ stored_failed session ctx f;
}

-- Writes one more than it sees.
abbrev increment : TransactionFunc server
increment ctx s = ((opaque 1, none), (s.0, suc s.1, s.2))

-- The first commit fails; the second run sees what was stored, not what the first one wrote.
retried_run :
    run_transaction server 0 true increment (3, 0, true) ≡ ((opaque 1, none), (4, 4, false))
unfolding run_transaction
retried_run = refl

run_transaction-Retried_example :
    Retried server server_lawful 0 increment
      (3, 0, true)
      (run_transaction server 0 true increment (3, 0, true))
run_transaction-Retried_example =
    run_transaction-Retried server server_lawful 0 increment retrying (λ session ctx s. refl)
      (3, 0, true)
