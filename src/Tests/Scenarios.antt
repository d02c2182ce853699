-- ===== src/Tests/Scenarios.antt =====
-- Scenarios of the component tests at the collection in memory, and the theorems there.
use dp_mongodb.Base.{
  ◌≡◌, ◌≢◌, ◌↔◌, inl, refl, ap, Bool, true, false, Option, none, some, List, [], ◌∷◌, ◌++◌, length,
  ◌==◌, if◌then◌else◌, ◌&&◌,
}
use mathlib.Core.Path.{subst}
use dp_mongodb.Base.Int.{ℤ, pos}
use dp_mongodb.Base.Text.{str_eq}
use dp_mongodb.Errors.{text, is, is_server_err, wrap_mongo_error}
use dp_mongodb.Bson.{Value, int, str, doc, end}
use dp_mongodb.Options.{limit_to, offset, new_find_options}
use dp_mongodb.Mongo.{DriverCollection, answer}
use dp_mongodb.Collection.Pages.{counted_page}
use dp_mongodb.Collection.Read as Read
use dp_mongodb.TestComponent.Programs.{
  ok, panic, ◌>>=◌, pure, get, must_be, try, call, receive, modify, return_err,
}
use dp_mongodb.Collection.Write as Write
use dp_mongodb.Must as Must
use dp_mongodb.TestComponent.Writes as Writes
use dp_mongodb.TestComponent.Results as Results
use dp_mongodb.TestComponent.Queries as Steps
use dp_mongodb.TestComponent.Has.{AllInt32}
use dp_mongodb.TestComponent.{
  DataModel, Toolkit, Component, new_component, reset, assert, step_error,
}
use dp_mongodb.TestComponent.Scenario.{
  Call, find_records, set_limit, set_skip, count_records, insert_records, inserted_records,
  update_record, modified_count, must_update_record, must_delete_record,
  test_receive_err_no_document_found_error, test_find_all_error, run_transaction, run, run_step,
}
use dp_mongodb.TestComponent.Transaction.{Sessions}
use dp_mongodb.TestComponent.Ready.{nothing, is_ready}
use dp_mongodb.TestComponent.Verdicts.{ReportsFailure}
use dp_mongodb.TestComponent.Counting.{counting_scenario}
use dp_mongodb.TestComponent.Safety.Results.{GivesInt32}
use dp_mongodb.TestComponent.Safety.{ready_scenario_runs}
use dp_mongodb.Tests.Memory.{memory, memory_lawful, matching, stored, read_of}

abbrev model : ℤ → DataModel
model n = record { id = n; name = "TestName"; age = "TestAge" }

abbrev same : Value → Value → Bool
same (int (pos m)) (int (pos n)) = m == n
same (str s) (str t) = str_eq s t
same _ _ = false

abbrev all_same : List Value → List Value → Bool
all_same [] [] = true
all_same (v ∷ vs) (w ∷ ws) = same v w && all_same vs ws
all_same _ _ = false

abbrev int32 : Value → Option ℤ
int32 (int n) = some n
int32 _ = none

-- A feature is whether an assertion has failed.
abbrev pub toolkit : Toolkit
toolkit = record {
  Feature = Bool;
  fresh = false;
  errorf = λ x. true;
  step_error = λ x. if x then some (text "assertion failed") else none;
  unmarshal_records =
      λ j. if str_eq j "two" then (model (pos 4) ∷ model (pos 5) ∷ [], none) else ([], none);
  unmarshal_record = λ j. (model (pos 1), none);
  unmarshal_pointer = λ j. (if str_eq j "null" then none else some (model (pos 1)), none);
  unmarshal_fields = λ j. ([], none);
  unmarshal_ids = λ j. (pos 4 ∷ pos 5 ∷ [], none);
  equal = same;
  equal_lists = all_same;
  equal_values = same;
  equal_value_lists = all_same;
  is_empty = λ v. true;
  as_int32 = int32;
  not_a_slice = text "not a slice";
  driver_is_timeout = λ e. false;
  sprintf = λ format e. format;
  regex = str;
}

pub toolkit_reports : ReportsFailure toolkit
toolkit_reports = record { step_error-fresh = refl; step_error-errorf = λ x. cc }

-- The memory, where an insertion answers with the ids.
abbrev server : DriverCollection
server = record memory {
  insert_many = λ ctx ds s. (answer (int (pos 4) ∷ int (pos 5) ∷ []), ds ++ s);
}

-- Sessions that hide nothing.
abbrev sessions : (C : DriverCollection) → Sessions C
sessions C = record {
  Session = Unit {0};
  start_session = λ options s. (inl tt, s);
  start_transaction = λ session s. (none, s);
  session_context = λ ctx session. ctx;
  abort_transaction = λ session ctx s. (none, s);
  commit_transaction = λ session ctx s. (none, s);
  with_transaction = λ session ctx fn s. fn ctx s;
}

abbrev scenario : List Call
scenario =
    insert_records "two"
    ∷ inserted_records "ids"
    ∷ find_records
    ∷ set_limit (pos 2)
    ∷ count_records (pos 2)
    ∷ update_record (pos 1) "one"
    ∷ modified_count (pos 1) (pos 1) (pos 0)
    ∷ must_delete_record (pos 9)
    ∷ test_receive_err_no_document_found_error
    ∷ run_transaction "without"
    ∷ test_find_all_error
    ∷ []

scenario-ready : is_ready toolkit scenario nothing ≡ true
unfolding is_ready
scenario-ready = refl

reset_run : reset toolkit (new_component toolkit) ≡ new_component toolkit
unfolding reset
reset_run = refl

abbrev pub before : Component toolkit
before = record {
  find = none;
  insert_result = none;
  update_result = none;
  delete_result = none;
  must_error_result = none;
  error_feature = true;
}

ready_scenario_runs_example :
    (run toolkit server (sessions server) tt scenario (reset toolkit before, stored)).0 ≢ panic
ready_scenario_runs_example =
    ready_scenario_runs toolkit server (sessions server) tt gives scenario before stored
      scenario-ready
  where
    gives : GivesInt32 toolkit server tt
    gives r q s ids e =
        subst (AllInt32 toolkit) (ap (read_of []) e) ((pos 4, refl), ((pos 5, refl), tt))

-- A step of `Must` that finds nothing leaves no result, and the step behind it panics.
abbrev unready : List Call
unready = must_update_record (pos 9) "one" ∷ modified_count (pos 0) (pos 0) (pos 0) ∷ []

unready_panics :
    (run toolkit server (sessions server) tt unready (reset toolkit before, stored)).0 ≡ panic
unfolding run run_step reset ◌>>=◌ pure get must_be try call receive modify return_err
    Writes.must_update_record Writes.must_update_with Must.update_one Write.update_one
    Write.update_record Results.modified_count
unready_panics = refl

not_ready : is_ready toolkit unready nothing ≡ false
unfolding is_ready
not_ready = refl

abbrev options : List Call
options = set_skip (pos 1) ∷ set_limit (pos 5) ∷ []

counting_scenario_example :
    ((run toolkit memory
        (sessions memory)
        tt
        (find_records ∷ (options ++ (count_records (pos 2) ∷ [])))
        (reset toolkit before, stored)).0
      ≡ ok tt)
    ↔ (pos 2 ≡ pos (length (counted_page (pos 5) 1 (matching stored (doc end)))))
unfolding new_find_options Read.count wrap_mongo_error
counting_scenario_example =
    counting_scenario toolkit memory (sessions memory) tt toolkit_reports memory_lawful find_records
      options (pos 2) (doc end) (offset (pos 1) ∷ limit_to (pos 5) ∷ []) 1 before stored refl refl
      refl refl

-- Documents cannot be put into an integer.
all_error_run :
    (run toolkit memory
      (sessions memory)
      tt
      (find_records ∷ test_find_all_error ∷ [])
      (reset toolkit before, stored)).0
    ≡ ok tt
unfolding run run_step reset ◌>>=◌ pure get must_be try call modify return_err assert step_error
    Steps.find_records Steps.test_find_all_error Steps.ask Read.find new_find_options
    wrap_mongo_error is is_server_err
all_error_run = refl
