-- ===== src/TestComponent/Scenario.antt =====
-- `RegisterSteps` of testcomponent/steps.go: the steps that a scenario may call. A scenario runs
-- its steps in order, up to the first that returns an error.
use dp_mongodb.Base.{String, List, [], ◌∷◌}
use dp_mongodb.Base.Int.{ℤ}
use dp_mongodb.Mongo.{DriverCollection}
use dp_mongodb.TestComponent.Programs.{Program, pure, ◌>>◌}
use dp_mongodb.TestComponent.Queries as Queries
use dp_mongodb.TestComponent.Writes as Writes
use dp_mongodb.TestComponent.Results as Results
use dp_mongodb.TestComponent.Transaction.{Sessions, run_transaction_step}
use dp_mongodb.TestComponent.{Toolkit, Component}

-- A step with its arguments, named after the method that is registered for it. A document string is
-- its content.
pub data Call : Type 0 where
  inserted_these_records should_receive_these_records : String → Call
  should_receive_no_records : ℤ → Call
  should_receive_these_distinct_fields : String → Call
  count_records : ℤ → Call
  find_records : Call
  set_limit set_skip : ℤ → Call
  set_ignore_zero_limit noop : Call
  find_with_id : ℤ → Call
  find_one_record : String → Call
  sort_by_id_desc : Call
  select_field distinct : String → Call
  upsert_record_by_id upsert_record update_record_by_id update_record : ℤ → String → Call
  delete_record_by_id delete_record : ℤ → Call
  delete_record_by_name insert_records : String → Call
  modified_count_with_id : ℤ → ℤ → ℤ → ℤ → Call
  modified_count : ℤ → ℤ → ℤ → Call
  deleted_records : ℤ → Call
  inserted_records : String → Call
  test_find_all_error test_find_one_error test_receive_err_no_document_found_error : Call
  test_must_did_not_return_error : Call
  must_update_record must_update_id : ℤ → String → Call
  must_delete_record_by_id must_delete_record : ℤ → Call
  must_delete_records_by_name : String → Call
  update_age : String → String → Call
  the_records_should_match run_transaction : String → Call

module _ (T : Toolkit) (C : DriverCollection) (D : Sessions C) (ctx : C.Context) where
  abbrev pub Step : Type 0
  Step = Program (Component T × C.State) (Unit {0})

  unfoldable pub run_step : Call → Step
  run_step (inserted_these_records a) = Queries.inserted_these_records T C ctx a
  run_step (should_receive_these_records a) = Queries.should_receive_these_records T C ctx a
  run_step (should_receive_no_records a) = Queries.should_receive_no_records T C ctx a
  run_step (should_receive_these_distinct_fields a) =
      Queries.should_receive_these_distinct_fields T C ctx a
  run_step (count_records a) = Queries.count_records T C ctx a
  run_step find_records = Queries.find_records T C ctx
  run_step (set_limit a) = Queries.set_limit T C ctx a
  run_step (set_skip a) = Queries.set_skip T C ctx a
  run_step set_ignore_zero_limit = Queries.set_ignore_zero_limit T C ctx
  run_step noop = pure tt
  run_step (find_with_id a) = Queries.find_with_id T C ctx a
  run_step (find_one_record a) = Queries.find_one_record T C ctx a
  run_step sort_by_id_desc = Queries.sort_by_id_desc T C ctx
  run_step (select_field a) = Queries.select_field T C ctx a
  run_step (distinct a) = Queries.distinct T C ctx a
  run_step (upsert_record_by_id a b) = Writes.upsert_record_by_id T C ctx a b
  run_step (upsert_record a b) = Writes.upsert_record T C ctx a b
  run_step (update_record_by_id a b) = Writes.update_record_by_id T C ctx a b
  run_step (update_record a b) = Writes.update_record T C ctx a b
  run_step (delete_record_by_id a) = Writes.delete_record_by_id T C ctx a
  run_step (delete_record a) = Writes.delete_record T C ctx a
  run_step (delete_record_by_name a) = Writes.delete_record_by_name T C ctx a
  run_step (insert_records a) = Writes.insert_records T C ctx a
  run_step (modified_count_with_id a b c d) = Results.modified_count_with_id T C.State a b c d
  run_step (modified_count a b c) = Results.modified_count T C.State a b c
  run_step (deleted_records a) = Results.deleted_records T C.State a
  run_step (inserted_records a) = Results.inserted_records T C.State a
  run_step test_find_all_error = Queries.test_find_all_error T C ctx
  run_step test_find_one_error = Queries.test_find_one_error T C ctx
  run_step test_receive_err_no_document_found_error =
      Results.test_receive_err_no_document_found_error T C.State
  run_step test_must_did_not_return_error = Results.test_must_did_not_return_error T C.State
  run_step (must_update_record a b) = Writes.must_update_record T C ctx a b
  run_step (must_update_id a b) = Writes.must_update_id T C ctx a b
  run_step (must_delete_record_by_id a) = Writes.must_delete_record_by_id T C ctx a
  run_step (must_delete_record a) = Writes.must_delete_record T C ctx a
  run_step (must_delete_records_by_name a) = Writes.must_delete_records_by_name T C ctx a
  run_step (update_age a b) = Writes.update_age T C ctx a b
  run_step (the_records_should_match a) = Queries.the_records_should_match T C ctx a
  run_step (run_transaction a) = run_transaction_step T C D ctx T.sprintf a

  unfoldable pub run : List Call → Step
  unfolding run_step
  run [] = pure tt
  run (c ∷ cs) = do run_step c; run cs
