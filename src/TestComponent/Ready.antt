-- ===== src/TestComponent/Ready.antt =====
-- A check of a scenario before it runs: every step finds what it needs, from the steps before it.
use dp_mongodb.Base.{Bool, true, false, Option, some, none, List, [], ◌∷◌, if◌then◌else◌}
use dp_mongodb.Errors.{Err}
use dp_mongodb.TestComponent.{DataModel, Toolkit}
use dp_mongodb.TestComponent.Scenario.{
  Call, noop, inserted_these_records, should_receive_these_records, should_receive_no_records,
  should_receive_these_distinct_fields, count_records, find_records, set_limit, set_skip,
  set_ignore_zero_limit, find_with_id, find_one_record, sort_by_id_desc, select_field, distinct,
  upsert_record_by_id, upsert_record, update_record_by_id, update_record, delete_record_by_id,
  delete_record, delete_record_by_name, insert_records, modified_count_with_id, modified_count,
  deleted_records, inserted_records, test_find_all_error, run_transaction, test_find_one_error,
  test_receive_err_no_document_found_error, test_must_did_not_return_error, must_update_record,
  must_update_id, must_delete_record_by_id, must_delete_record, must_delete_records_by_name,
  update_age, the_records_should_match,
}

-- The pending query: none that is sure, a filter, or the name of a field.
pub data Asked : Type 0 where
  unasked filter name : Asked

-- What is sure to be there, after the steps so far: the pending query, and results that are not nil.
pub record Known : Type 0 where
  pub asked : Asked
  pub updated : Bool
  pub deleted : Bool
  pub inserted : Bool

abbrev pub nothing : Known
nothing = record { asked = unasked; updated = false; deleted = false; inserted = false }

abbrev pub if_asked : Asked → Known → Option Known
if_asked unasked k = none
if_asked filter k = some k
if_asked name k = some k

abbrev pub if_name : Asked → Known → Option Known
if_name name k = some k
if_name _ k = none

abbrev pub if_known : Bool → Known → Option Known
if_known b k = if b then some k else none

-- Two records at least, or none that can be read.
abbrev pub is_enough : List DataModel × Option Err → Bool
is_enough (_, some e) = true
is_enough (r ∷ q ∷ rs, none) = true
is_enough _ = false

-- A record that is not nil, or none that can be read.
abbrev pub is_record : Option DataModel × Option Err → Bool
is_record (_, some e) = true
is_record (some d, none) = true
is_record (none, none) = false

-- What is known after a step that ended well; `none` if the step may lack what it needs.
unfoldable pub after : Toolkit → Call → Known → Option Known
after T find_records k = some (record k { asked = filter })
after T (find_with_id i) k = some (record k { asked = filter })
after T (the_records_should_match j) k = some (record k { asked = filter })
after T (distinct n) k = some (record k { asked = name })
after T (should_receive_these_distinct_fields j) k = if_name k.asked k
after T (should_receive_these_records j) k = if_asked k.asked k
after T (should_receive_no_records n) k = if_asked k.asked k
after T (count_records n) k = if_asked k.asked k
after T (set_limit l) k = if_asked k.asked k
after T (set_skip n) k = if_asked k.asked k
after T set_ignore_zero_limit k = if_asked k.asked k
after T sort_by_id_desc k = if_asked k.asked k
after T (select_field n) k = if_asked k.asked k
after T (find_one_record j) k = if_asked k.asked k
after T test_find_all_error k = if_asked k.asked k
after T test_find_one_error k = if_asked k.asked k
after T (upsert_record_by_id i j) k =
    if_known (is_record (T.unmarshal_pointer j)) (record k { updated = true })
after T (upsert_record i j) k =
    if_known (is_record (T.unmarshal_pointer j)) (record k { updated = true })
after T (update_record_by_id i j) k =
    if_known (is_record (T.unmarshal_pointer j)) (record k { updated = true })
after T (update_record i j) k =
    if_known (is_record (T.unmarshal_pointer j)) (record k { updated = true })
after T (update_age n a) k = some (record k { updated = true })
after T (must_update_record i j) k = some (record k { updated = false })
after T (must_update_id i j) k = some (record k { updated = false })
after T (delete_record_by_id i) k = some (record k { deleted = true })
after T (delete_record i) k = some (record k { deleted = true })
after T (delete_record_by_name n) k = some (record k { deleted = true })
after T (must_delete_record_by_id i) k = some (record k { deleted = false })
after T (must_delete_record i) k = some (record k { deleted = false })
after T (must_delete_records_by_name n) k = some (record k { deleted = false })
after T (insert_records j) k =
    if_known (is_enough (T.unmarshal_records j)) (record k { inserted = true })
after T (modified_count_with_id a b c d) k = if_known k.updated k
after T (modified_count a b c) k = if_known k.updated k
after T (deleted_records n) k = if_known k.deleted k
after T (inserted_records j) k = if_known k.inserted k
after T (inserted_these_records j) k = some k
after T (run_transaction i) k = some k
after T noop k = some k
after T test_receive_err_no_document_found_error k = some k
after T test_must_did_not_return_error k = some k

-- The scenario, from what is known.
unfoldable pub is_ready : Toolkit → List Call → Known → Bool
unfolding after
is_ready T [] k = true
is_ready T (c ∷ cs) k = elim (after T c k) [ none ↦ false | some l ↦ is_ready T cs l ]
