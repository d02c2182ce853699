-- ===== src/TestComponent/Results.antt =====
-- The steps of testcomponent/steps.go that look at the results and the error that are kept.
use dp_mongodb.Base.{String, Option, none, some, List, [], ◌∷◌, ◌&&◌, Bool, true, false}
use dp_mongodb.Base.Int.{ℤ, eqb_ℤ}
use dp_mongodb.Errors.{Err, is?, no_documents}
use dp_mongodb.Bson.{Value, int}
use dp_mongodb.TestComponent.Programs.{Program, pure, ◌>>=◌, ◌>>◌, get, try, must_be}
use dp_mongodb.TestComponent.{Toolkit, Component, assert, step_error}

-- `assert.Equal` of two slices of integers
unfoldable pub equal_ids : List ℤ → List ℤ → Bool
equal_ids [] [] = true
equal_ids [] (j ∷ js) = false
equal_ids (i ∷ is) [] = false
equal_ids (i ∷ is) (j ∷ js) = eqb_ℤ i j && equal_ids is js

-- `err == nil`
abbrev pub is_none : Option Err → Bool
is_none none = true
is_none (some e) = false

module _ (T : Toolkit) (S : Type 0) where
  abbrev Step : Type 0
  Step = Program (Component T × S) (Unit {0})

  unfoldable pub modified_count_with_id : ℤ → ℤ → ℤ → ℤ → Step
  modified_count_with_id matched modified upserted upsert_id = do
    m ← get
    r ← must_be m.update_result
    assert T (eqb_ℤ matched r.matched_count)
    assert T (eqb_ℤ modified r.modified_count)
    assert T (eqb_ℤ upserted r.upserted_count)
    assert T (T.equal_values (int upsert_id) r.upserted_id)
    step_error T

  unfoldable pub modified_count : ℤ → ℤ → ℤ → Step
  modified_count matched modified upserted = do
    m ← get
    r ← must_be m.update_result
    assert T (eqb_ℤ matched r.matched_count)
    assert T (eqb_ℤ modified r.modified_count)
    assert T (eqb_ℤ upserted r.upserted_count)
    assert T (T.is_empty r.upserted_id)
    step_error T

  unfoldable pub deleted_records : ℤ → Step
  deleted_records deleted = do
    m ← get
    r ← must_be m.delete_result
    assert T (eqb_ℤ deleted r.deleted_count)
    step_error T

  -- The loop of `insertedRecords`.
  unfoldable pub read_ids : List Value → Program (Component T × S) (List ℤ)
  read_ids [] = pure []
  read_ids (element ∷ elements) = do
    i ← must_be (T.as_int32 element)
    is ← read_ids elements
    pure (i ∷ is)

  unfoldable pub inserted_records : String → Step
  unfolding read_ids equal_ids
  inserted_records records_json = do
    expected ← try (T.unmarshal_ids records_json)
    m ← get
    r ← must_be m.insert_result
    actual ← read_ids r.inserted_ids
    assert T (equal_ids expected actual)
    step_error T

  unfoldable pub test_receive_err_no_document_found_error : Step
  test_receive_err_no_document_found_error = do
    m ← get
    assert T (is? m.must_error_result no_documents)
    step_error T

  unfoldable pub test_must_did_not_return_error : Step
  test_must_did_not_return_error = do m ← get; assert T (is_none m.must_error_result); step_error T
