-- ===== src/TestComponent/Phrases/Reading.antt =====
-- The steps that `RegisterSteps` registers, and which of them a step's text and document string call.
use dp_mongodb.Base.{String, true, false, Option, none, some, List, [], ◌∷◌, ltb, if◌then◌else◌}
use dp_mongodb.Base.Int.{ℤ, pos}
use dp_mongodb.Base.Text.{codes}
use dp_mongodb.Lock.Decimal.Reading.{read}
use dp_mongodb.TestComponent.Scenario.{
  Call, inserted_these_records, should_receive_these_records, should_receive_no_records,
  should_receive_these_distinct_fields, count_records, find_records, set_limit, set_skip,
  set_ignore_zero_limit, noop, find_with_id, find_one_record, sort_by_id_desc, select_field,
  distinct, upsert_record_by_id, upsert_record, update_record_by_id, update_record,
  delete_record_by_id, delete_record, delete_record_by_name, insert_records, modified_count_with_id,
  modified_count, deleted_records, inserted_records, test_find_all_error, test_find_one_error,
  test_receive_err_no_document_found_error, test_must_did_not_return_error, must_update_record,
  must_update_id, must_delete_record_by_id, must_delete_record, must_delete_records_by_name,
  update_age, the_records_should_match, run_transaction,
}
use dp_mongodb.TestComponent.Phrases.{
  digits, word, unquoted, Part, many, without_or_with, Pattern, says, captures,
}

-- What godog makes of the captured texts and the document string: an argument that is an `int` is
-- read in base 10, and has to fit 64 bits.
abbrev pub Maker : Type 0
Maker = List String → String → Option Call

unfoldable pub number : String → Option ℤ
number u =
    let n = read 0 (codes u) in if ltb n 9_223_372_036_854_775_808 then some (pos n) else none

abbrev pub plain : Call → Maker
plain c us doc = some c

abbrev pub with_doc : (String → Call) → Maker
with_doc c us doc = some (c doc)

abbrev pub with_text : (String → Call) → Maker
with_text c (u ∷ us) doc = some (c u)
with_text c [] doc = none

abbrev pub with_two_texts : (String → String → Call) → Maker
with_two_texts c (u ∷ v ∷ us) doc = some (c u v)
with_two_texts c _ doc = none

abbrev pub given : Option ℤ → (ℤ → Option Call) → Option Call
given none f = none
given (some n) f = f n

-- The first captured text as a number, and what is to come of the other ones.
abbrev pub next_number : (ℤ → Maker) → Maker
next_number f (u ∷ us) doc = given (number u) (λ n. f n us doc)
next_number f [] doc = none

abbrev pub with_number : (ℤ → Call) → Maker
with_number c = next_number λ n. plain (c n)

abbrev pub with_number_and_doc : (ℤ → String → Call) → Maker
with_number_and_doc c = next_number λ n. with_doc (c n)

abbrev pub with_three_numbers : (ℤ → ℤ → ℤ → Call) → Maker
with_three_numbers c = next_number λ k. next_number λ m. with_number (c k m)

abbrev pub with_four_numbers : (ℤ → ℤ → ℤ → ℤ → Call) → Maker
with_four_numbers c = next_number λ k. with_three_numbers (c k)

pub record Registered : Type 0 where
  pub pattern : Pattern
  pub make : Maker

-- An expression with `$` at its end, and one without.
abbrev pub line : List Part → Maker → Registered
line ps make = record { pattern = record { parts = ps; to_the_end = true }; make = make }

abbrev pub open_line : List Part → Maker → Registered
open_line ps make = record { pattern = record { parts = ps; to_the_end = false }; make = make }

-- In the order of the code.
unfoldable pub registered : List Registered
registered =
    line (says "I have inserted these Records" []) (with_doc inserted_these_records)
    ∷ line (says "I should find these records" []) (with_doc should_receive_these_records)
    ∷ line (says "I should find no records, just a total count of " (many digits ∷ []))
        (with_number should_receive_no_records)
    ∷ open_line (says "I should find these distinct fields" [])
        (with_doc should_receive_these_distinct_fields)
    ∷ line (says "I will count " (many digits ∷ says " records" [])) (with_number count_records)
    ∷ line (says "I filter on all records" []) (plain find_records)
    ∷ open_line (says "I set the limit to " (many digits ∷ [])) (with_number set_limit)
    ∷ line (says "I skip " (many digits ∷ says " records" [])) (with_number set_skip)
    ∷ line (says "I set the IgnoreZeroLimit option" []) (plain set_ignore_zero_limit)
    ∷ line (says "I don't set the IgnoreZeroLimit option" []) (plain noop)
    ∷ line (says "I filter on records with Id > " (many digits ∷ [])) (with_number find_with_id)
    ∷ line (says "FindOne should give me this one record" []) (with_doc find_one_record)
    ∷ open_line (says "I sort by ID desc" []) (plain sort_by_id_desc)
    ∷ line (says "I select the field \"" (many unquoted ∷ says "\"" [])) (with_text select_field)
    ∷ line (says "I filter for records with a distinct value for " (many word ∷ []))
        (with_text distinct)
    ∷ line (says "I upsertById this record with id " (many digits ∷ []))
        (with_number_and_doc upsert_record_by_id)
    ∷ line (says "I upsert this record with id " (many digits ∷ []))
        (with_number_and_doc upsert_record)
    ∷ line (says "I updateById this record with id " (many digits ∷ []))
        (with_number_and_doc update_record_by_id)
    ∷ line (says "I update this record with id " (many digits ∷ []))
        (with_number_and_doc update_record)
    ∷ line (says "I deleteById a record with id " (many digits ∷ []))
        (with_number delete_record_by_id)
    ∷ line (says "I delete a record with id " (many digits ∷ [])) (with_number delete_record)
    ∷ line (says "I delete a record with name like " (many word ∷ []))
        (with_text delete_record_by_name)
    ∷ line (says "I insert these records" []) (with_doc insert_records)
    ∷ line
        (says "there are " (
          many digits
          ∷ says " matched, " (
              many digits
              ∷ says " modified, "
                  (many digits ∷ says " upserted records, with upsert Id of " (many digits ∷ [])))))
        (with_four_numbers modified_count_with_id)
    ∷ line
        (says "there are " (
          many digits
          ∷ says " matched, "
              (many digits ∷ says " modified, " (many digits ∷ says " upserted records" []))))
        (with_three_numbers modified_count)
    ∷ line (says "there are " (many digits ∷ says " deleted records" []))
        (with_number deleted_records)
    ∷ line (says "this is the inserted records result" []) (with_doc inserted_records)
    ∷ line
        (says "Find should fail with a wrapped error if an incorrect result param is provided" [])
        (plain test_find_all_error)
    ∷ line (says "FindOne should fail with an ErrNoDocumentFound error" [])
        (plain test_find_one_error)
    ∷ line (says "I should receive a ErrNoDocumentFound error" [])
        (plain test_receive_err_no_document_found_error)
    ∷ line (says "Must did not return an error" []) (plain test_must_did_not_return_error)
    ∷ line (says "I Must update this record with id " (many digits ∷ []))
        (with_number_and_doc must_update_record)
    ∷ line (says "I Must updateById this record with id " (many digits ∷ []))
        (with_number_and_doc must_update_id)
    ∷ line (says "I Must deleteById a record with id " (many digits ∷ []))
        (with_number must_delete_record_by_id)
    ∷ line (says "I Must delete a record with id " (many digits ∷ []))
        (with_number must_delete_record)
    ∷ line (says "I Must delete records with name like " (many word ∷ []))
        (with_text must_delete_records_by_name)
    ∷ line
        (says "I update records with name \""
          (many unquoted ∷ says "\" age to \"" (many unquoted ∷ says "\"" [])))
        (with_two_texts update_age)
    ∷ line (says "the records should match" []) (with_doc the_records_should_match)
    ∷ line
        (says "I update the record in a transaction " (without_or_with ∷ says " interference" []))
        (with_text run_transaction)
    ∷ []

-- The call of the first registered expression that matches.
unfoldable pub first_match : List Registered → String → String → Option Call
unfolding captures
first_match [] t doc = none
first_match (r ∷ rs) t doc = elim (captures r.pattern.parts r.pattern.to_the_end t) [
  | some us ↦ r.make us doc
  | none ↦ first_match rs t doc
]
