-- ===== src/TestComponent/Phrases/Speech.antt =====
-- How a feature file says a step.
use dp_mongodb.Base.{ℕ, ◌<◌, ◌≡◌, ◌⊎◌, String, true, some, none, Option, List, [], ◌∷◌, get_elem?}
use dp_mongodb.Base.Int.{ℤ, pos, negsuc}
use dp_mongodb.Lock.Decimal.{decimal}
use dp_mongodb.TestComponent.Scenario.{
  Call, inserted_these_records, should_receive_these_records, should_receive_no_records,
  should_receive_these_distinct_fields, count_records, find_records, set_limit, set_skip,
  set_ignore_zero_limit, noop, find_with_id, find_one_record, sort_by_id_desc, select_field,
  distinct, upsert_record_by_id, upsert_record, update_record_by_id, update_record,
  delete_record_by_id, delete_record, delete_record_by_name, insert_records, modified_count_with_id,
  modified_count, deleted_records, inserted_records, test_find_all_error, test_find_one_error,
  test_receive_err_no_document_found_error, test_must_did_not_return_error, must_update_record,
  must_update_id, must_delete_record_by_id, must_delete_record, must_delete_records_by_name,
  update_age, the_records_should_match, run_transaction,
}
use dp_mongodb.TestComponent.Phrases.{word, unquoted, Part}
use dp_mongodb.TestComponent.Phrases.Reading.{Registered, registered}
use dp_mongodb.TestComponent.Phrases.Writing.{is_whole, print}

abbrev pub show : ℤ → String
show (pos n) = decimal n
show (negsuc n) = ""

-- A number that `(\d+)` and an `int` take.
abbrev pub IsInt : ℤ → Type 0
IsInt (pos n) = n < 9_223_372_036_854_775_808
IsInt (negsuc n) = ⊥

-- The registered step by its number, what its groups capture, and the document string.
pub record Spoken : Type 0 where
  pub index : ℕ
  pub captured : List String
  pub doc : String

abbrev said : ℕ → List String → String → Spoken
said i us doc = record { index = i; captured = us; doc = doc }

unfoldable pub spoken : Call → Spoken
spoken (inserted_these_records d) = said 0 [] d
spoken (should_receive_these_records d) = said 1 [] d
spoken (should_receive_no_records x) = said 2 (show x ∷ []) ""
spoken (should_receive_these_distinct_fields d) = said 3 [] d
spoken (count_records x) = said 4 (show x ∷ []) ""
spoken find_records = said 5 [] ""
spoken (set_limit x) = said 6 (show x ∷ []) ""
spoken (set_skip x) = said 7 (show x ∷ []) ""
spoken set_ignore_zero_limit = said 8 [] ""
spoken noop = said 9 [] ""
spoken (find_with_id x) = said 10 (show x ∷ []) ""
spoken (find_one_record d) = said 11 [] d
spoken sort_by_id_desc = said 12 [] ""
spoken (select_field u) = said 13 (u ∷ []) ""
spoken (distinct u) = said 14 (u ∷ []) ""
spoken (upsert_record_by_id x d) = said 15 (show x ∷ []) d
spoken (upsert_record x d) = said 16 (show x ∷ []) d
spoken (update_record_by_id x d) = said 17 (show x ∷ []) d
spoken (update_record x d) = said 18 (show x ∷ []) d
spoken (delete_record_by_id x) = said 19 (show x ∷ []) ""
spoken (delete_record x) = said 20 (show x ∷ []) ""
spoken (delete_record_by_name u) = said 21 (u ∷ []) ""
spoken (insert_records d) = said 22 [] d
spoken (modified_count_with_id w x y z) = said 23 (show w ∷ show x ∷ show y ∷ show z ∷ []) ""
spoken (modified_count x y z) = said 24 (show x ∷ show y ∷ show z ∷ []) ""
spoken (deleted_records x) = said 25 (show x ∷ []) ""
spoken (inserted_records d) = said 26 [] d
spoken test_find_all_error = said 27 [] ""
spoken test_find_one_error = said 28 [] ""
spoken test_receive_err_no_document_found_error = said 29 [] ""
spoken test_must_did_not_return_error = said 30 [] ""
spoken (must_update_record x d) = said 31 (show x ∷ []) d
spoken (must_update_id x d) = said 32 (show x ∷ []) d
spoken (must_delete_record_by_id x) = said 33 (show x ∷ []) ""
spoken (must_delete_record x) = said 34 (show x ∷ []) ""
spoken (must_delete_records_by_name u) = said 35 (u ∷ []) ""
spoken (update_age u v) = said 36 (u ∷ v ∷ []) ""
spoken (the_records_should_match d) = said 37 [] d
spoken (run_transaction u) = said 38 (u ∷ []) ""

abbrev parts_of : Option Registered → List Part
parts_of none = []
parts_of (some r) = r.pattern.parts

-- The text of the step.
unfoldable pub text_of : Call → String
unfolding spoken registered
text_of c = print (parts_of (get_elem? registered (spoken c).index)) (spoken c).captured

-- Its arguments fit the groups of the regular expression.
abbrev pub IsSayable : Call → Type 0
IsSayable (inserted_these_records d) = Unit {0}
IsSayable (should_receive_these_records d) = Unit {0}
IsSayable (should_receive_no_records x) = IsInt x
IsSayable (should_receive_these_distinct_fields d) = Unit {0}
IsSayable (count_records x) = IsInt x
IsSayable find_records = Unit {0}
IsSayable (set_limit x) = IsInt x
IsSayable (set_skip x) = IsInt x
IsSayable set_ignore_zero_limit = Unit {0}
IsSayable noop = Unit {0}
IsSayable (find_with_id x) = IsInt x
IsSayable (find_one_record d) = Unit {0}
IsSayable sort_by_id_desc = Unit {0}
IsSayable (select_field u) = is_whole unquoted u ≡ true
IsSayable (distinct u) = is_whole word u ≡ true
IsSayable (upsert_record_by_id x d) = IsInt x
IsSayable (upsert_record x d) = IsInt x
IsSayable (update_record_by_id x d) = IsInt x
IsSayable (update_record x d) = IsInt x
IsSayable (delete_record_by_id x) = IsInt x
IsSayable (delete_record x) = IsInt x
IsSayable (delete_record_by_name u) = is_whole word u ≡ true
IsSayable (insert_records d) = Unit {0}
IsSayable (modified_count_with_id w x y z) = IsInt w × IsInt x × IsInt y × IsInt z
IsSayable (modified_count x y z) = IsInt x × IsInt y × IsInt z
IsSayable (deleted_records x) = IsInt x
IsSayable (inserted_records d) = Unit {0}
IsSayable test_find_all_error = Unit {0}
IsSayable test_find_one_error = Unit {0}
IsSayable test_receive_err_no_document_found_error = Unit {0}
IsSayable test_must_did_not_return_error = Unit {0}
IsSayable (must_update_record x d) = IsInt x
IsSayable (must_update_id x d) = IsInt x
IsSayable (must_delete_record_by_id x) = IsInt x
IsSayable (must_delete_record x) = IsInt x
IsSayable (must_delete_records_by_name u) = is_whole word u ≡ true
IsSayable (update_age u v) = (is_whole unquoted u ≡ true) × (is_whole unquoted v ≡ true)
IsSayable (the_records_should_match d) = Unit {0}
IsSayable (run_transaction u) = (u ≡ "without") ⊎ (u ≡ "with")
