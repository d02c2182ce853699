-- ===== src/TestComponent/Safety.antt =====
-- Steps and scenarios that are ready.
pub mod Queries
pub mod Settled
pub mod Writes
pub mod Results
use dp_mongodb.Base.{
  ◌≡◌, ◌≢◌, refl, inl, inr, Option-cases, String, Bool, true, false, Option, none, some, List, [],
  ◌∷◌,
}
use mathlib.Core.Path.{subst}
use dp_mongodb.Mongo.{DriverCollection}
use dp_mongodb.TestComponent.Programs.{Outcome, ok, err, panic, Program, ◌>>=◌, ◌>>◌, pure}
use dp_mongodb.TestComponent.{Toolkit, Component, reset}
use dp_mongodb.TestComponent.Ready.{
  Asked, unasked, filter, name, Known, if_asked, if_name, if_known, after, is_ready, nothing,
}
use dp_mongodb.TestComponent.Scenario.{
  Call, noop, inserted_these_records, should_receive_these_records, should_receive_no_records,
  should_receive_these_distinct_fields, count_records, find_records, set_limit, set_skip,
  set_ignore_zero_limit, find_with_id, find_one_record, sort_by_id_desc, select_field, distinct,
  upsert_record_by_id, upsert_record, update_record_by_id, update_record, delete_record_by_id,
  delete_record, delete_record_by_name, insert_records, modified_count_with_id, modified_count,
  deleted_records, inserted_records, test_find_all_error, run_transaction, test_find_one_error,
  test_receive_err_no_document_found_error, test_must_did_not_return_error, must_update_record,
  must_update_id, must_delete_record_by_id, must_delete_record, must_delete_records_by_name,
  update_age, the_records_should_match, run_step, run,
}
use dp_mongodb.TestComponent.Queries as Steps
use dp_mongodb.TestComponent.Triples.{Leaves, Triple, Triple-bind, Keeps, Keeps-pure}
use dp_mongodb.TestComponent.Has.{Has}
use dp_mongodb.TestComponent.Safety.Queries.*
use dp_mongodb.TestComponent.Safety.Writes.*
use dp_mongodb.TestComponent.Safety.Results.*
use dp_mongodb.TestComponent.Transaction.{Sessions}

if_asked-some : (a : Asked) {k l : Known} → if_asked a k ≡ some l → (a ≢ unasked) × (k ≡ l)
if_asked-some unasked h = absurd cc
if_asked-some filter h = (λ u. cc, cc)
if_asked-some name h = (λ u. cc, cc)

if_name-some : (a : Asked) {k l : Known} → if_name a k ≡ some l → (a ≡ name) × (k ≡ l)
if_name-some unasked h = absurd cc
if_name-some filter h = absurd cc
if_name-some name h = (refl, cc)

if_known-some : (b : Bool) {k l : Known} → if_known b k ≡ some l → (b ≡ true) × (k ≡ l)
if_known-some true h = (refl, cc)
if_known-some false h = absurd cc

some-injective : {k l : Known} → some k ≡ some l → k ≡ l
some-injective h = cc

is_ready-cons :
    (T : Toolkit) (c : Call) (cs : List Call) (k : Known)
    → is_ready T (c ∷ cs) k ≡ true
    → (l : Known) × (after T c k ≡ some l) × (is_ready T cs l ≡ true)
unfolding is_ready
is_ready-cons T c cs k = elim (Option-cases (after T c k)) [
  | inl e ↦ rw (e, is_ready) λ h. absurd cc
  | inr (l, e) ↦ rw (e, is_ready) λ h. (l, refl, h)
]

Leaves-panic : {W A : Type 0} (Q : A → W → Type 0) (r : Outcome A × W) → Leaves Q r → r.0 ≢ panic
Leaves-panic Q (ok a, w) h e = absurd cc
Leaves-panic Q (err x, w) h e = absurd cc
Leaves-panic Q (panic, w) h e = h

module _ (T : Toolkit) (C : DriverCollection) (D : Sessions C) (ctx : C.Context) where
  abbrev K : Known → Component T × C.State → Type 0
  K = Has T C.State

  module _ {k l : Known} {p : Program (Component T × C.State) (Unit {0})} where
    known_as : {j : Known} → j ≡ l → (Triple (K k) p λ _. K j) → Triple (K k) p λ _. K l
    known_as e h = subst (λ i. Triple (K k) p λ _. K i) e h

    if_some : {j : Known} → some j ≡ some l → (Triple (K k) p λ _. K j) → Triple (K k) p λ _. K l
    if_some e h = known_as (some-injective e) h

    where_asked :
        if_asked k.asked k ≡ some l → (k.asked ≢ unasked → Keeps (K k) p) → Triple (K k) p λ _. K l
    where_asked e h = let (a, q) = if_asked-some k.asked e in known_as q (h a)

    where_known :
        (b : Bool) {j : Known}
        → if_known b j ≡ some l
        → (b ≡ true → Triple (K k) p λ _. K j)
        → Triple (K k) p λ _. K l
    where_known b e h = let (a, q) = if_known-some b e in known_as q (h a)

  -- A step that is ready does not panic, and leaves what it should.
  run_step-Triple :
      GivesInt32 T C ctx
      → (c : Call) (k l : Known) → after T c k ≡ some l
      → Triple (K k) (run_step T C D ctx c) λ _. K l
  unfolding after run_step Steps.set_limit Steps.set_skip Steps.set_ignore_zero_limit
      Steps.sort_by_id_desc Steps.select_field
  run_step-Triple g find_records k l h = if_some h (find_records-Triple T C ctx k)
  run_step-Triple g (find_with_id i) k l h = if_some h (find_with_id-Triple T C ctx k i)
  run_step-Triple g (the_records_should_match i) k l h =
      if_some h (the_records_should_match-Triple T C ctx k i)
  run_step-Triple g (distinct i) k l h = if_some h (distinct-Triple T C ctx k i)
  run_step-Triple g (should_receive_these_records i) k l h =
      where_asked h λ a. should_receive_these_records-Keeps T C ctx k a i
  run_step-Triple g (should_receive_no_records i) k l h =
      where_asked h λ a. should_receive_no_records-Keeps T C ctx k a i
  run_step-Triple g (count_records i) k l h = where_asked h λ a. count_records-Keeps T C ctx k a i
  run_step-Triple g (find_one_record i) k l h =
      where_asked h λ a. find_one_record-Keeps T C ctx k a i
  run_step-Triple g test_find_all_error k l h =
      where_asked h λ a. test_find_all_error-Keeps T C ctx k a
  run_step-Triple g (run_transaction i) k l h =
      if_some h (run_transaction_step-Keeps T C ctx k D T.sprintf i)
  run_step-Triple g test_find_one_error k l h =
      where_asked h λ a. test_find_one_error-Keeps T C ctx k a
  run_step-Triple g (set_limit i) k l h = where_asked h λ a. add_option-Keeps T C ctx k a _
  run_step-Triple g (set_skip i) k l h = where_asked h λ a. add_option-Keeps T C ctx k a _
  run_step-Triple g set_ignore_zero_limit k l h = where_asked h λ a. add_option-Keeps T C ctx k a _
  run_step-Triple g sort_by_id_desc k l h = where_asked h λ a. add_option-Keeps T C ctx k a _
  run_step-Triple g (select_field i) k l h = where_asked h λ a. add_option-Keeps T C ctx k a _
  run_step-Triple g (upsert_record_by_id i j) k l h =
      where_known _ h λ e. upsert_record_by_id-Triple T C ctx k i j e
  run_step-Triple g (upsert_record i j) k l h =
      where_known _ h λ e. upsert_record-Triple T C ctx k i j e
  run_step-Triple g (update_record_by_id i j) k l h =
      where_known _ h λ e. update_record_by_id-Triple T C ctx k i j e
  run_step-Triple g (update_record i j) k l h =
      where_known _ h λ e. update_record-Triple T C ctx k i j e
  run_step-Triple g (update_age i j) k l h = if_some h (update_age-Triple T C ctx k i j)
  run_step-Triple g (must_update_record i j) k l h =
      if_some h (must_update_record-Triple T C ctx k i j)
  run_step-Triple g (must_update_id i j) k l h = if_some h (must_update_id-Triple T C ctx k i j)
  run_step-Triple g (delete_record_by_id i) k l h =
      if_some h (delete_record_by_id-Triple T C ctx k i)
  run_step-Triple g (delete_record i) k l h = if_some h (delete_record-Triple T C ctx k i)
  run_step-Triple g (delete_record_by_name i) k l h =
      if_some h (delete_record_by_name-Triple T C ctx k i)
  run_step-Triple g (must_delete_record_by_id i) k l h =
      if_some h (must_delete_record_by_id-Triple T C ctx k i)
  run_step-Triple g (must_delete_record i) k l h = if_some h (must_delete_record-Triple T C ctx k i)
  run_step-Triple g (must_delete_records_by_name i) k l h =
      if_some h (must_delete_records_by_name-Triple T C ctx k i)
  run_step-Triple g (inserted_these_records i) k l h =
      if_some h (inserted_these_records-Keeps T C ctx k i)
  run_step-Triple g test_receive_err_no_document_found_error k l h =
      if_some h (test_receive_err_no_document_found_error-Keeps T C ctx k)
  run_step-Triple g test_must_did_not_return_error k l h =
      if_some h (test_must_did_not_return_error-Keeps T C ctx k)
  run_step-Triple g (should_receive_these_distinct_fields i) k l h =
      let (a, q) = if_name-some k.asked h in
      known_as q (should_receive_these_distinct_fields-Keeps T C ctx k a i)
  run_step-Triple g (insert_records i) k l h =
      where_known _ h λ a. insert_records-Triple T C ctx k g i a
  run_step-Triple g (modified_count_with_id a b c d) k l h =
      where_known _ h λ e. modified_count_with_id-Keeps T C ctx k e a b c d
  run_step-Triple g (modified_count a b c) k l h =
      where_known _ h λ e. modified_count-Keeps T C ctx k e a b c
  run_step-Triple g (deleted_records i) k l h =
      where_known _ h λ e. deleted_records-Keeps T C ctx k e i
  run_step-Triple g (inserted_records i) k l h =
      where_known _ h λ e. inserted_records-Keeps T C ctx k e i
  run_step-Triple g noop k l h = if_some h (Keeps-pure (K k) tt)

  run-Triple :
      GivesInt32 T C ctx
      → (cs : List Call) (k : Known) → is_ready T cs k ≡ true
      → Triple (K k) (run T C D ctx cs) λ _ _. Unit {0}
  unfolding run pure
  run-Triple g [] k h = record { at = λ w x. tt }
  run-Triple g (c ∷ cs) k h =
      let (l, e, q) = is_ready-cons T c cs k h in
      Triple-bind (run_step-Triple g c k l e) λ _. run-Triple g cs l q

  -- A scenario begins with a reset. If the static check finds that every step has what it needs from
  -- the steps before it, the scenario does not panic, whatever the server answers, as long as the ids
  -- that it gives for two inserted records are `int32` values.
  pub ready_scenario_runs :
      GivesInt32 T C ctx
      → (cs : List Call) (m : Component T) (s : C.State) → is_ready T cs nothing ≡ true
      → (run T C D ctx cs (reset T m, s)).0 ≢ panic
  unfolding reset
  ready_scenario_runs g cs m s h =
      Leaves-panic _ (run T C D ctx cs (reset T m, s)) ((run-Triple g cs nothing h).at _ fresh)
    where
      fresh : K nothing (reset T m, s)
      fresh = record { find = tt; update_result = tt; delete_result = tt; insert_result = tt }
