-- ===== src/Tests/Phrases.antt =====
-- The texts of steps.
use mathlib.Core.Path.{subst}
use mathlib.Core.List.{Memᴰ}
use mathlib.Core.List.Memᴰ.{append_left, append_right, append_cases}
use dp_mongodb.Base.{◌≡◌, refl, sym, inl, inr, some, none, List, ◌++◌, arith, take, drop}
use dp_mongodb.Lock.Decimal.{decimal}
use dp_mongodb.TestComponent.Phrases.Speech.{spoken, text_of}
use dp_mongodb.Base.Int.{pos}
use dp_mongodb.TestComponent.Scenario.{set_skip, upsert_record, update_age}
use dp_mongodb.TestComponent.Phrases.Saying.{say_call}
use dp_mongodb.TestComponent.Phrases.Reading.{Registered, registered, first_match, number}

-- A line of features/must.feature, and one of features/updateMany.feature.
upsert_text :
    first_match registered "I upsert this record with id 4" "{}" ≡ some (upsert_record (pos 4) "{}")
unfolding registered first_match number
upsert_text = refl

age_text :
    first_match registered "I update records with name \"Tester 1\" age to \"Testing Age\"" ""
    ≡ some (update_age "Tester 1" "Testing Age")
unfolding registered first_match number
age_text = refl

negative_text : first_match registered "I skip -1 records" "" ≡ none
unfolding registered first_match number
negative_text = refl

-- The registered steps from the eighth on, and then the first seven.
abbrev early : List Registered
early = take 7 registered

abbrev late : List Registered
late = drop 7 registered

whole : early ++ late ≡ registered
unfolding registered
whole = refl

say_call_example : first_match (late ++ early) "I skip 2 records" "" ≡ some (set_skip (pos 2))
unfolding text_of spoken decimal
say_call_example =
    say_call (late ++ early)
      (λ r m.
        let placed : Memᴰ r (early ++ late) = elim (append_cases late m) [
          | inl k ↦ append_right early k
          | inr k ↦ append_left late k
        ] in
        subst (λ rs. Memᴰ r rs) whole placed)
      (λ r m.
        let placed : Memᴰ r (early ++ late) = subst (λ rs. Memᴰ r rs) (sym whole) m in
        elim (append_cases early placed) [
          | inl k ↦ append_right late k
          | inr k ↦ append_left early k
        ])
      (set_skip (pos 2)) (omega arith)
