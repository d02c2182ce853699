-- ===== src/Tests/Sessions.antt =====
-- The step that updates in a transaction, at a collection that keeps one document, which a session
-- sees apart from what is stored.
use dp_mongodb.Base.{◌≡◌, ◌↔◌, refl, inl, String, Bool, true, false, none, [], ◌∷◌, if◌then◌else◌}
use dp_mongodb.Base.Int.{pos}
use dp_mongodb.Errors.{Err, text, is, name_eq, wrap_mongo_error}
use dp_mongodb.Bson.{Value, nil_value, int, str, doc, field, end}
use dp_mongodb.Mongo.{DriverCollection, UpdateResult, Reply, answer, failed}
use dp_mongodb.Collection.Read as Read
use dp_mongodb.Collection.Write as Write
use dp_mongodb.Transaction.{run_transaction, run_once, end_transaction}
use dp_mongodb.Transaction.Laws.{IsTransactional, Ended}
use dp_mongodb.TestComponent.Programs.{ok, ◌>>=◌, call, get, modify, return_err}
use dp_mongodb.TestComponent.{reset, assert, step_error}
use dp_mongodb.TestComponent.Transaction.{
  Sessions, driver, rename, update_in_transaction, run_transaction_step,
}
use dp_mongodb.TestComponent.Transaction.Laws.{IsIsolated, transaction_step-Ended}
use dp_mongodb.TestComponent.Transaction.Conflict.{HasConflicts, IsInterfered, interference_fails}
use dp_mongodb.Transaction.Failures.{Failed}
use dp_mongodb.Tests.Scenarios.{toolkit, toolkit_reports, before}

abbrev model : String → Value
model name = doc (field "_id" (int (pos 1)) (field "name" (str name) (field "age" (str "") end)))

-- The document of `{"$set": …}`
abbrev set_to : Value → Value
set_to (doc (field k v fs)) = v
set_to v = v

abbrev one_changed : UpdateResult
one_changed = record {
  matched_count = pos 1;
  modified_count = pos 1;
  upserted_count = pos 0;
  upserted_id = nil_value;
}

abbrev write : Bool → Value → Value × Value × Bool → Reply UpdateResult × (Value × Value × Bool)
write true u (d, v, true) = (failed (text "write conflict"), (d, v, true))
write true u (d, v, false) = (answer one_changed, (d, set_to u, false))
write false u (d, v, b) = (answer one_changed, (set_to u, v, true))

stored_write : (u : Value) (s : Value × Value × Bool) → (write true u s).1.0 ≡ s.0
stored_write u (d, v, true) = refl
stored_write u (d, v, false) = refl

-- The state is what is stored, what the session sees, and whether another has written since the
-- transaction began. The context says whether it is the session's.
abbrev server : DriverCollection
server = record {
  Context = Bool;
  State = Value × Value × Bool;
  Cursor = Unit {0};
  SingleResult = Value;
  distinct = λ ctx k f s. (([], none), s);
  count_documents = λ ctx f opts s. ((pos 1, none), s);
  find = λ ctx f o s. (answer tt, s);
  all = λ cursor ctx old s. ((s.0 ∷ [], none), s);
  find_one = λ ctx f o s. (if ctx then s.1 else s.0, s);
  find_one_and_update = λ ctx f u o s. (s.0, s);
  single_err = λ r. none;
  decode = λ r old. (r, none);
  insert_one = λ ctx d s. (answer d, s);
  insert_many = λ ctx ds s. (answer ds, s);
  update_one = λ ctx f u upsert s. write ctx u s;
  update_many = λ ctx f u upsert s. (answer one_changed, s);
  delete_one = λ ctx f s. (answer (pos 1), s);
  delete_many = λ ctx f s. (answer (pos 1), s);
  aggregate = λ ctx p s. (answer tt, s);
}

abbrev sessions : Sessions server
sessions = record {
  Session = Unit {0};
  start_session = λ options s. (inl tt, s);
  start_transaction = λ session s. (none, (s.0, s.0, false));
  session_context = λ ctx session. true;
  abort_transaction = λ session ctx s. (none, (s.0, s.0, false));
  commit_transaction = λ session ctx s. (none, (s.1, s.1, false));
  with_transaction = λ session ctx fn s. fn true s;
}

abbrev sessions_lawful : IsTransactional (driver sessions)
sessions_lawful = record {
  Documents = Value;
  stored = λ s. s.0;
  seen = λ session s. s.1;
  stored-start_session = λ options s. refl;
  stored-start_transaction = λ session s. refl;
  stored-abort = λ session ctx s. refl;
  stored-commit = λ session ctx s e. refl;
  stored-commit_failed = λ session ctx s e h. absurd cc;
}

sessions-IsIsolated : IsIsolated server sessions sessions_lawful
sessions-IsIsolated = record {
  stored-find_one = λ session ctx f o s. refl;
  stored-update_one = λ session ctx f u o s. stored_write u s;
}

abbrev sprintf : String → Err → String
sprintf format e = format

abbrev start : Value × Value × Bool
start = (model "first", nil_value, false)

-- The document is renamed, and the step passes.
renamed :
    run_transaction_step toolkit server sessions false sprintf "without"
      (reset toolkit before, start)
    ≡ (ok tt, (reset toolkit before, (model "second", model "second", false)))
unfolding run_transaction_step reset run_transaction run_once end_transaction update_in_transaction
    rename Read.find_one Read.decoded Write.update_one Write.update_record wrap_mongo_error ◌>>=◌
    call get modify return_err assert step_error
renamed = refl

transaction_step-Ended_example :
    let fn = update_in_transaction toolkit server sessions false sprintf false in
    let out = run_transaction (driver sessions) false false fn start in
    let step =
      run_transaction_step toolkit server sessions false sprintf "without"
        (reset toolkit before, start) in
    Ended (driver sessions) sessions_lawful false fn start out
    × (step.1.1 ≡ out.1)
    × ((step.0 ≡ ok tt) ↔ (out.0.1 ≡ none))
transaction_step-Ended_example =
    transaction_step-Ended toolkit server sessions sessions_lawful sessions-IsIsolated false sprintf
      toolkit_reports "without" before start refl

conflicting : HasConflicts server sessions false
conflicting = record {
  conflict = λ session c id u v o s r begun found written n. (text "write conflict", refl);
}

interfering : IsInterfered toolkit server sessions false sprintf start
unfolding Read.find_one Read.decoded wrap_mongo_error
interfering = record {
  session = tt;
  opened = refl;
  begun = refl;
  found = refl;
  first = refl;
  change = one_changed;
  changed = λ e. cc;
  written = refl;
}

interference_fails_example :
    (Failed (
      run_transaction
        (driver sessions)
        false
        false
        (update_in_transaction toolkit server sessions false sprintf true)
        start))
    × ((run_transaction_step toolkit server sessions false sprintf "with"
          (reset toolkit before, start)).0
        ≡ ok tt)
interference_fails_example =
    interference_fails toolkit server sessions false sprintf toolkit_reports conflicting before
      start interfering

-- The write from outside stays.
interfered :
    (run_transaction_step toolkit server sessions false sprintf "with"
      (reset toolkit before, start)).1.1.0
    ≡ doc (field "name" (str "third") end)
unfolding run_transaction_step reset run_transaction run_once end_transaction update_in_transaction
    rename Read.find_one Read.decoded Write.update_one Write.update_record wrap_mongo_error is
    name_eq ◌>>=◌ call get modify return_err assert step_error
interfered = refl
