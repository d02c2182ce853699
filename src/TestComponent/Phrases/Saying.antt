-- ===== src/TestComponent/Phrases/Saying.antt =====
-- Every step can be called by its text.
use Prim.Native.Nat.{◌^◌}
use mathlib.Core.List.{Memᴰ}
use dp_mongodb.Base.{
  ℕ, sym, ap, Bool-cases, false, ◌<◌, ◌≡◌, ◌∙◌, inl, inr, refl, String, true, some, List, [], ◌∷◌,
  get_elem?, arith,
}
use dp_mongodb.Base.Int.{ℤ, pos, negsuc}
use dp_mongodb.Base.Text.{codes, is_digit, all_pass}
use dp_mongodb.Lock.Decimal.{decimal}
use dp_mongodb.Lock.Decimal.Reading.{read, read-decimal, all_pass-decimal}
use dp_mongodb.TestComponent.Scenario.{
  Call, inserted_these_records, should_receive_these_records, should_receive_no_records,
  should_receive_these_distinct_fields, count_records, find_records, set_limit, set_skip,
  set_ignore_zero_limit, noop, find_with_id, find_one_record, sort_by_id_desc, select_field,
  distinct, upsert_record_by_id, upsert_record, update_record_by_id, update_record,
  delete_record_by_id, delete_record, delete_record_by_name, insert_records, modified_count_with_id,
  modified_count, deleted_records, inserted_records, test_find_all_error, test_find_one_error,
  test_receive_err_no_document_found_error, test_must_did_not_return_error, must_update_record,
  must_update_id, must_delete_record_by_id, must_delete_record, must_delete_records_by_name,
  update_age, the_records_should_match, run_transaction,
}
use dp_mongodb.TestComponent.Phrases.{Pattern, captures, digits, is_empty}
use dp_mongodb.TestComponent.Phrases.Reading.{
  Registered, registered, first_match, Maker, plain, with_doc, number, given, next_number,
  with_number, with_three_numbers,
}
use dp_mongodb.TestComponent.Phrases.Writing.{all_in, is_whole, print, Fits, captures-print}
use dp_mongodb.TestComponent.Phrases.Unique.{get_elem?-Memᴰ, first_match-Memᴰ}
use dp_mongodb.TestComponent.Phrases.Speech.{show, IsInt, spoken, text_of, IsSayable}

all_in-digits : (s : String) → all_pass is_digit (codes s) ≡ true → all_in digits s ≡ true
all_in-digits String.[] h = refl
all_in-digits (String.◌∷◌ c s) h = ground (arith, all_in-digits s (ground arith))

is_empty-eq : (s : String) → is_empty s ≡ true → s ≡ ""
is_empty-eq String.[] h = refl
is_empty-eq (String.◌∷◌ c s) h = cc

zero_digit : is_empty (decimal 0) ≡ false
unfolding decimal
zero_digit = refl

-- The digits of no number are none, since those of zero are not.
some_digit : (n : ℕ) → n < 2 ^ 64 → is_empty (decimal n) ≡ false
some_digit n h = elim (Bool-cases (is_empty (decimal n))) [
  | inr e ↦ e
  | inl e ↦
      let none_left : decimal n ≡ "" = is_empty-eq (decimal n) e in
      let zero_left : n ≡ 0 = sym (read-decimal n h) ∙ ap (λ s. read 0 (codes s)) none_left in
      ap (λ k. is_empty (decimal k)) zero_left ∙ zero_digit
]

show-is_whole : (x : ℤ) → IsInt x → is_whole digits (show x) ≡ true
show-is_whole (pos n) ok =
    ground (arith, all_in-digits (decimal n) (all_pass-decimal n), some_digit n (omega arith))
show-is_whole (negsuc n) ok = elim ok [ ]

number-decimal : (n : ℕ) → IsInt (pos n) → number (decimal n) ≡ some (pos n)
unfolding number
number-decimal n h = ground (arith, read-decimal n (omega arith))

next_number-show :
    (f : ℤ → Maker) (x : ℤ) (us : List String) (d : String)
    → IsInt x
    → next_number f (show x ∷ us) d ≡ f x us d
next_number-show f (pos n) us d h = ap (λ o. given o (λ k. f k us d)) (number-decimal n h)
next_number-show f (negsuc n) us d h = elim h [ ]

with_three_numbers-show :
    (f : ℤ → ℤ → ℤ → Call) (x y z : ℤ) (us : List String) (d : String)
    → IsInt x × IsInt y × IsInt z
    → with_three_numbers f (show x ∷ show y ∷ show z ∷ us) d ≡ some (f x y z)
with_three_numbers-show f x y z us d h =
    next_number-show (λ k. next_number λ m. with_number (f k m)) x (show y ∷ show z ∷ us) d h.0
    ∙ next_number-show (λ m. with_number (f x m)) y (show z ∷ us) d h.1
    ∙ next_number-show (λ m. plain (f x y m)) z us d h.2

-- Any list with the registered steps and no others.
module _ (rs : List Registered) (known : (r : Registered) → Memᴰ r rs → Memᴰ r registered)
    (whole : (r : Registered) → Memᴰ r registered → Memᴰ r rs) where
  matched :
      (i : ℕ) (r : Registered) (us : List String) (t : String) (doc : String)
      → get_elem? registered i ≡ some r
      → captures r.pattern.parts r.pattern.to_the_end t ≡ some us
      → first_match rs t doc ≡ r.make us doc
  matched i r us t doc e =
      first_match-Memᴰ t doc rs r us known (whole r (get_elem?-Memᴰ registered i e))

  said_match :
      (i : ℕ) (r : Registered) (us : List String) (doc : String)
      → get_elem? registered i ≡ some r
      → Fits r.pattern.parts us
      → first_match rs (print r.pattern.parts us) doc ≡ r.make us doc
  said_match i r us doc e f =
      matched i r us (print r.pattern.parts us) doc e
        (captures-print r.pattern.parts r.pattern.to_the_end us f)

  -- A step with one number.
  said_number :
      (i : ℕ) (p : Pattern) (f : ℤ → Maker) (x : ℤ) (doc : String)
      → get_elem? registered i ≡ some (record { pattern = p; make = next_number f })
      → (is_whole digits (show x) ≡ true → Fits p.parts (show x ∷ []))
      → IsInt x
      → first_match rs (print p.parts (show x ∷ [])) doc ≡ f x [] doc
  said_number i p f x doc e fits ok =
      said_match i _ (show x ∷ []) doc e (fits (show-is_whole x ok))
      ∙ next_number-show f x [] doc ok

  -- The text of a step, with its document string, calls that step with those arguments, in whatever
  -- order the steps are registered; provided that its numbers are not negative and fit 64 bits, and
  -- that its texts are of the characters that their groups take.
  pub say_call : (c : Call) → IsSayable c → first_match rs (text_of c) (spoken c).doc ≡ some c
  unfolding text_of first_match
  say_call (inserted_these_records d) ok = said_match 0 _ [] d refl tt
  say_call (should_receive_these_records d) ok = said_match 1 _ [] d refl tt
  say_call (should_receive_no_records x) ok =
      said_number 2 _ (λ n. plain (should_receive_no_records n)) x "" refl (λ w. (w, refl, tt)) ok
  say_call (should_receive_these_distinct_fields d) ok = said_match 3 _ [] d refl tt
  say_call (count_records x) ok =
      said_number 4 _ (λ n. plain (count_records n)) x "" refl (λ w. (w, refl, tt)) ok
  say_call find_records ok = said_match 5 _ [] "" refl tt
  say_call (set_limit x) ok =
      said_number 6 _ (λ n. plain (set_limit n)) x "" refl (λ w. (w, refl, tt)) ok
  say_call (set_skip x) ok =
      said_number 7 _ (λ n. plain (set_skip n)) x "" refl (λ w. (w, refl, tt)) ok
  say_call set_ignore_zero_limit ok = said_match 8 _ [] "" refl tt
  say_call noop ok = said_match 9 _ [] "" refl tt
  say_call (find_with_id x) ok =
      said_number 10 _ (λ n. plain (find_with_id n)) x "" refl (λ w. (w, refl, tt)) ok
  say_call (find_one_record d) ok = said_match 11 _ [] d refl tt
  say_call sort_by_id_desc ok = said_match 12 _ [] "" refl tt
  say_call (select_field u) ok = said_match 13 _ (u ∷ []) "" refl (ok, refl, tt)
  say_call (distinct u) ok = said_match 14 _ (u ∷ []) "" refl (ok, refl, tt)
  say_call (upsert_record_by_id x d) ok =
      said_number 15 _ (λ n. with_doc (upsert_record_by_id n)) x d refl (λ w. (w, refl, tt)) ok
  say_call (upsert_record x d) ok =
      said_number 16 _ (λ n. with_doc (upsert_record n)) x d refl (λ w. (w, refl, tt)) ok
  say_call (update_record_by_id x d) ok =
      said_number 17 _ (λ n. with_doc (update_record_by_id n)) x d refl (λ w. (w, refl, tt)) ok
  say_call (update_record x d) ok =
      said_number 18 _ (λ n. with_doc (update_record n)) x d refl (λ w. (w, refl, tt)) ok
  say_call (delete_record_by_id x) ok =
      said_number 19 _ (λ n. plain (delete_record_by_id n)) x "" refl (λ w. (w, refl, tt)) ok
  say_call (delete_record x) ok =
      said_number 20 _ (λ n. plain (delete_record n)) x "" refl (λ w. (w, refl, tt)) ok
  say_call (delete_record_by_name u) ok = said_match 21 _ (u ∷ []) "" refl (ok, refl, tt)
  say_call (insert_records d) ok = said_match 22 _ [] d refl tt
  say_call (modified_count_with_id w x y z) ok =
      said_match 23 _ (show w ∷ show x ∷ show y ∷ show z ∷ []) "" refl (
        show-is_whole w ok.0,
        refl,
        (
          show-is_whole x ok.1,
          refl,
          (show-is_whole y ok.2, refl, (show-is_whole z ok.3, refl, tt)),
        ),
      )
      ∙ next_number-show (λ k. with_three_numbers (modified_count_with_id k)) w
          (show x ∷ show y ∷ show z ∷ []) "" ok.0
      ∙ with_three_numbers-show (modified_count_with_id w) x y z [] "" (ok.1, ok.2, ok.3)
  say_call (modified_count x y z) ok =
      said_match 24 _ (show x ∷ show y ∷ show z ∷ []) "" refl
        (show-is_whole x ok.0, refl, (show-is_whole y ok.1, refl, (show-is_whole z ok.2, refl, tt)))
      ∙ with_three_numbers-show modified_count x y z [] "" ok
  say_call (deleted_records x) ok =
      said_number 25 _ (λ n. plain (deleted_records n)) x "" refl (λ w. (w, refl, tt)) ok
  say_call (inserted_records d) ok = said_match 26 _ [] d refl tt
  say_call test_find_all_error ok = said_match 27 _ [] "" refl tt
  say_call test_find_one_error ok = said_match 28 _ [] "" refl tt
  say_call test_receive_err_no_document_found_error ok = said_match 29 _ [] "" refl tt
  say_call test_must_did_not_return_error ok = said_match 30 _ [] "" refl tt
  say_call (must_update_record x d) ok =
      said_number 31 _ (λ n. with_doc (must_update_record n)) x d refl (λ w. (w, refl, tt)) ok
  say_call (must_update_id x d) ok =
      said_number 32 _ (λ n. with_doc (must_update_id n)) x d refl (λ w. (w, refl, tt)) ok
  say_call (must_delete_record_by_id x) ok =
      said_number 33 _ (λ n. plain (must_delete_record_by_id n)) x "" refl (λ w. (w, refl, tt)) ok
  say_call (must_delete_record x) ok =
      said_number 34 _ (λ n. plain (must_delete_record n)) x "" refl (λ w. (w, refl, tt)) ok
  say_call (must_delete_records_by_name u) ok = said_match 35 _ (u ∷ []) "" refl (ok, refl, tt)
  say_call (update_age u v) ok = said_match 36 _ (u ∷ v ∷ []) "" refl (ok.0, refl, (ok.1, refl, tt))
  say_call (the_records_should_match d) ok = said_match 37 _ [] d refl tt
  say_call (run_transaction u) (inl e) = rw e (matched 38 _ ("without" ∷ []) _ "" refl refl)
  say_call (run_transaction u) (inr e) = rw e (matched 38 _ ("with" ∷ []) _ "" refl refl)
