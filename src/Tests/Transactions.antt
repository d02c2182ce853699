-- ===== src/Tests/Transactions.antt =====
-- Transactions at a server that keeps one number, and the theorem there.
use dp_mongodb.Base.{ℕ, ◌≡◌, inl, refl, false, Option, none, some}
use dp_mongodb.Errors.{Err, text, wrap_mongo_error}
use dp_mongodb.Bson.{opaque}
use dp_mongodb.Transaction.{SessionDriver, TransactionFunc, run_transaction}
use dp_mongodb.Transaction.Laws.{IsTransactional, Ended, run_transaction-Ended}

-- The number that is stored, and the one that is seen in the transaction.
abbrev server : SessionDriver
server = record {
  State = ℕ × ℕ;
  Context = ℕ;
  Session = ℕ;
  start_session = (λ options s. (inl 0, s));
  start_transaction = (λ session s. (none, (s.0, s.0)));
  session_context = (λ ctx session. session);
  abort_transaction = (λ session ctx s. (none, (s.0, s.0)));
  commit_transaction = (λ session ctx s. (none, (s.1, s.1)));
  with_transaction = (λ session ctx fn s. fn ctx s);
}

abbrev server_lawful : IsTransactional server
server_lawful = record {
  Documents = ℕ;
  stored = (λ s. s.0);
  seen = (λ session s. s.1);
  stored-start_session = (λ options s. refl);
  stored-start_transaction = (λ session s. refl);
  stored-abort = (λ session ctx s. refl);
  stored-commit = (λ session ctx s e. refl);
  stored-commit_failed = (λ session ctx s e h. absurd cc);
}

-- Writes 7, and fails or not.
abbrev write_seven : Option Err → TransactionFunc server
write_seven err ctx s = ((opaque 1, err), (s.0, 7))

committed_run :
    run_transaction server 0 false (write_seven none) (3, 3) ≡ ((opaque 1, none), (7, 7))
unfolding run_transaction wrap_mongo_error
committed_run = refl

aborted_run :
    run_transaction server 0 false (write_seven (some (text "no"))) (3, 3)
    ≡ ((opaque 1, some (text "no")), (3, 3))
unfolding run_transaction
aborted_run = refl

run_transaction-Ended_example :
    Ended server server_lawful 0
      (write_seven (some (text "no")))
      (3, 3)
      (run_transaction server 0 false (write_seven (some (text "no"))) (3, 3))
run_transaction-Ended_example =
    run_transaction-Ended server server_lawful 0 (write_seven (some (text "no"))) (3, 3)
      (λ session ctx s. refl)
