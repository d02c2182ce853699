-- ===== src/TestComponent/Counting.antt =====
-- A scenario that counts: `I filter on all records`, the steps that set options, and `I will count`.
use dp_mongodb.Base.{
  ◌≡◌, ◌↔◌, refl, ap, sym, ◌∙◌, true, Option, none, some, List, [], ◌∷◌, ◌++◌, arith, length,
  if◌then◌else◌, ℕ,
}
use mathlib.Core.List.{append_assoc, append-nil}
use dp_mongodb.Base.Int.{ℤ, pos, negsuc, eqb_ℤ}
use dp_mongodb.Errors.{Err}
use dp_mongodb.Bson.{Value, int, doc, field, end, by_id}
use dp_mongodb.Options.{
  FindOption, limit_to, offset, ignore_zero_limit, sort_by, project, new_find_options,
}
use dp_mongodb.Mongo.{DriverCollection, IsLawful}
use dp_mongodb.Collection.Pages.{counted_page}
use dp_mongodb.Collection.Paging.{count-page}
use dp_mongodb.Collection.Read.{count}
use dp_mongodb.TestComponent.Programs.{
  ok, ◌>>=◌, ◌>>◌, pure, get, modify, must_be, call, try, return_err,
}
use dp_mongodb.TestComponent.{Toolkit, Component, assert, step_error, reset}
use dp_mongodb.TestComponent.Verdicts.{ReportsFailure, verdict, verdict-ok}
use dp_mongodb.TestComponent.Transaction.{Sessions}
use dp_mongodb.TestComponent.Queries as Steps
use dp_mongodb.TestComponent.Scenario.{
  Call, set_limit, set_skip, set_ignore_zero_limit, noop, sort_by_id_desc, select_field,
  find_records, find_with_id, count_records, run_step, run,
}

-- The filter that a step asks for.
abbrev pub asks : Call → Option Value
asks find_records = some Steps.everything
asks (find_with_id i) = some (by_id (doc (field "$gt" (int i) end)))
asks _ = none

abbrev with_first : {A : Type 0} → A → Option (List A) → Option (List A)
with_first a none = none
with_first a (some qs) = some (a ∷ qs)

-- The options that some steps set, one after the other, if they set options only.
abbrev pub options_set : List Call → Option (List FindOption)
options_set [] = some []
options_set (noop ∷ cs) = options_set cs
options_set (set_limit l ∷ cs) = with_first (limit_to l) (options_set cs)
options_set (set_skip n ∷ cs) = with_first (offset n) (options_set cs)
options_set (set_ignore_zero_limit ∷ cs) = with_first ignore_zero_limit (options_set cs)
options_set (sort_by_id_desc ∷ cs) =
    with_first (sort_by (doc (field "_id" (int (negsuc 0)) end))) (options_set cs)
options_set (select_field name ∷ cs) =
    with_first (project (doc (field name (int (pos 1)) end))) (options_set cs)
options_set _ = none

with_first-some :
    {A : Type 0} (a : A) (o : Option (List A)) (os : List A)
    → with_first a o ≡ some os
    → (qs : List A) × (o ≡ some qs) × (os ≡ a ∷ qs)
with_first-some a none os h = absurd cc
with_first-some a (some qs) os h = (qs, refl, cc)

some-injective : {A : Type 0} {a b : A} → some a ≡ some b → a ≡ b
some-injective h = cc

eqb_ℤ-true : (a b : ℤ) → eqb_ℤ a b ≡ true → a ≡ b
eqb_ℤ-true (pos i) (pos j) h = ap pos (ground arith)
eqb_ℤ-true (pos i) (negsuc j) h = absurd (ground arith)
eqb_ℤ-true (negsuc i) (pos j) h = absurd (ground arith)
eqb_ℤ-true (negsuc i) (negsuc j) h = ap negsuc (ground arith)

eqb_ℤ-same : (a b : ℤ) → a ≡ b → eqb_ℤ a b ≡ true
eqb_ℤ-same a b h = rw h (ground arith)

module _ (T : Toolkit) (C : DriverCollection) (D : Sessions C) (ctx : C.Context) where
  -- With a pending query.
  abbrev pending : Component T → Value → List FindOption → Component T
  pending m q os = record m { find = some (record { query = q; options = os }) }

  run-asks :
      (c : Call) (cs : List Call) (q : Value) (m : Component T) (s : C.State)
      → asks c ≡ some q
      → run T C D ctx (c ∷ cs) (m, s) ≡ run T C D ctx cs (pending m q [], s)
  unfolding run run_step ◌>>=◌ modify Steps.find_records Steps.find_with_id Steps.ask
  run-asks find_records cs q m s h = rw (some-injective h) refl
  run-asks (find_with_id i) cs q m s h = rw (some-injective h) refl
  run-asks _ cs q m s h = absurd cc

  -- One option is set, and then the others.
  set_first :
      (o : FindOption) (cs ds : List Call) (os : List FindOption) (m : Component T) (q : Value)
      (ps : List FindOption) (s : C.State)
      → with_first o (options_set cs) ≡ some os
      → ((qs : List FindOption)
          → options_set cs ≡ some qs
          → run T C D ctx (cs ++ ds) (pending m q (ps ++ (o ∷ [])), s)
            ≡ run T C D ctx ds (pending m q (ps ++ (o ∷ []) ++ qs), s))
      → run T C D ctx (cs ++ ds) (pending m q (ps ++ (o ∷ [])), s)
        ≡ run T C D ctx ds (pending m q (ps ++ os), s)
  set_first o cs ds os m q ps s h ih =
      let (qs, e, x) = with_first-some _ _ os h in
      ih qs e
      ∙ ap (λ a. run T C D ctx ds (pending m q a, s))
          (append_assoc ps (o ∷ []) qs ∙ ap (λ a. ps ++ a) (sym x))

  run_options :
      (cs ds : List Call) (os : List FindOption) (m : Component T) (q : Value)
      (ps : List FindOption) (s : C.State)
      → options_set cs ≡ some os
      → run T C D ctx (cs ++ ds) (pending m q ps, s) ≡ run T C D ctx ds (pending m q (ps ++ os), s)
  unfolding run run_step ◌>>=◌ modify get must_be pure Steps.add_option Steps.set_limit
      Steps.set_skip Steps.set_ignore_zero_limit Steps.sort_by_id_desc Steps.select_field
  run_options [] ds os m q ps s h =
      ap (λ a. run T C D ctx ds (pending m q a, s))
        (sym (append-nil ps) ∙ ap (λ a. ps ++ a) (some-injective h))
  run_options (noop ∷ cs) ds os m q ps s h = run_options cs ds os m q ps s h
  run_options (set_limit l ∷ cs) ds os m q ps s h =
      set_first _ cs ds os m q ps s h λ qs. run_options cs ds qs m q _ s
  run_options (set_skip l ∷ cs) ds os m q ps s h =
      set_first _ cs ds os m q ps s h λ qs. run_options cs ds qs m q _ s
  run_options (set_ignore_zero_limit ∷ cs) ds os m q ps s h =
      set_first _ cs ds os m q ps s h λ qs. run_options cs ds qs m q _ s
  run_options (sort_by_id_desc ∷ cs) ds os m q ps s h =
      set_first _ cs ds os m q ps s h λ qs. run_options cs ds qs m q _ s
  run_options (select_field l ∷ cs) ds os m q ps s h =
      set_first _ cs ds os m q ps s h λ qs. run_options cs ds qs m q _ s
  run_options _ ds os m q ps s h = absurd cc

  return_err-verdict :
      (e : Option Err) (w : Component T × C.State) → ((return_err e >> pure tt) w).0 ≡ verdict e
  unfolding return_err pure ◌>>=◌
  return_err-verdict none w = refl
  return_err-verdict (some e) w = refl

  -- The step behind its call of `Count`.
  count_answered :
      (n a : ℤ) (e : Option Err) (w : Component T × C.State)
      → e ≡ none
      → (((do actual ← try (a, e); assert T (eqb_ℤ n actual); step_error T) >> pure tt) w).0
        ≡ verdict
            (T.step_error (if eqb_ℤ n a then w.0.error_feature else T.errorf w.0.error_feature))
  unfolding try assert modify step_error get ◌>>=◌
  count_answered n a none w h = return_err-verdict _ _
  count_answered n a (some e) w h = absurd cc

  count_ends :
      (n : ℤ) (q : Value) (os : List FindOption) (m : Component T) (s : C.State)
      → (count C ctx q os s).0.1 ≡ none
      → (run T C D ctx (count_records n ∷ []) (pending m q os, s)).0
        ≡ verdict (
            T.step_error (
              if eqb_ℤ n (count C ctx q os s).0.0
              then m.error_feature
              else T.errorf m.error_feature))
  unfolding run run_step ◌>>=◌ get must_be call Steps.count_records
  count_ends n q os m s h =
      count_answered n (count C ctx q os s).0.0 (count C ctx q os s).0.1
        (pending m q os, (count C ctx q os s).1) h

  -- After a reset, with an error feature that reports a failed assertion and a fresh one that
  -- reports nothing: a scenario that begins with a filter, then sets options, and then counts,
  -- ends well exactly if the number it expects is that of the documents that match the filter,
  -- less those that the last skip leaves out, and no more than the last limit if that is
  -- positive; provided that the driver counts as it documents, `Count` returns no error, and the
  -- skip is not negative.
  pub counting_scenario :
      (R : ReportsFailure T) (L : IsLawful C) (c : Call) (cs : List Call) (n : ℤ) (q : Value)
      (os : List FindOption) (k : ℕ) (m : Component T) (s : C.State)
      → asks c ≡ some q
      → options_set cs ≡ some os
      → (new_find_options os).skip ≡ pos k
      → (count C ctx q os s).0.1 ≡ none
      → ((run T C D ctx (c ∷ (cs ++ (count_records n ∷ []))) (reset T m, s)).0 ≡ ok tt)
        ↔ (n ≡ pos (length (counted_page (new_find_options os).limit k (L.matching s q))))
  unfolding reset
  counting_scenario R L c cs n q os k m s hc hs hk h =
      let page = counted_page (new_find_options os).limit k (L.matching s q) in
      let number = count-page C L ctx q os k s hk h in
      let (only_if, if_so) =
        verdict-ok T R (eqb_ℤ n (count C ctx q os s).0.0) T.fresh R.step_error-fresh in
      let ends =
        ap (λ x. x.0) (run-asks c _ q (reset T m) s hc)
        ∙ ap (λ x. x.0) (run_options cs _ os (reset T m) q [] s hs)
        ∙ count_ends n q os (reset T m) s h in
      (
        λ e. eqb_ℤ-true n _ (only_if (sym ends ∙ e)) ∙ number,
        λ e. ends ∙ if_so (eqb_ℤ-same n _ (e ∙ sym number)),
      )
