-- ===== src/TestComponent/Transaction/Laws.antt =====
-- The step that updates in a transaction, without a write from outside.
use dp_mongodb.Base.{
  ◌≡◌, ◌↔◌, refl, ◌∙◌, inl, inr, String, Bool, true, false, Option, Option-cases, none, some,
  Bool-cases, [],
}
use dp_mongodb.Base.Text.{str_eq}
use dp_mongodb.Errors.{Err}
use dp_mongodb.Bson.{Value, doc, field, end, ascending_id}
use dp_mongodb.Options.{DriverOptions}
use dp_mongodb.Mongo.{DriverCollection}
use dp_mongodb.Collection.Paging.{Reply-cases}
use dp_mongodb.Collection.Read as Read
use dp_mongodb.Collection.Write as Write
use dp_mongodb.Transaction.{run_transaction}
use dp_mongodb.Transaction.Laws.{IsTransactional, IsInside, Ended, run_transaction-Ended}
use dp_mongodb.TestComponent.Programs.{ok, ◌>>=◌, call}
use dp_mongodb.TestComponent.Verdicts.{ReportsFailure, asserted-ok, asserted-server}
use dp_mongodb.TestComponent.Queries.{zero_model}
use dp_mongodb.TestComponent.Results.{is_none}
use dp_mongodb.TestComponent.{to_value, Toolkit, Component, reset}
use dp_mongodb.TestComponent.Transaction.{
  Sessions, driver, name_of, with_name, rename, err_of, update_in_transaction, run_transaction_step,
}

-- What the driver documents of calls in a session's context: outside of the transaction, nothing of
-- them can be seen.
pub record IsIsolated (C : DriverCollection) (D : Sessions C) (L : IsTransactional (driver D))
    : Type 0 where
  pub stored-find_one :
      (session : D.Session) (ctx : C.Context) (f : Value) (o : DriverOptions) (s : C.State)
      → L.stored (C.find_one (D.session_context ctx session) f o s).1 ≡ L.stored s
  pub stored-update_one :
      (session : D.Session) (ctx : C.Context) (f u : Value) (o : Option Bool) (s : C.State)
      → L.stored (C.update_one (D.session_context ctx session) f u o s).1 ≡ L.stored s

module _ (T : Toolkit) (C : DriverCollection) (D : Sessions C) (L : IsTransactional (driver D))
    (I : IsIsolated C D L) (ctx : C.Context) (sprintf : String → Err → String) where
  stored-write :
      (session : D.Session) (c : C.Context) (f u : Value) (s : C.State)
      → L.stored (Write.update_one C (D.session_context c session) f u s).1 ≡ L.stored s
  unfolding Write.update_one Write.update_record
  stored-write session c f u s =
      elim (Reply-cases (C.update_one (D.session_context c session) f u none s).0) [
        | inl (r, e) ↦ rw (e, Write.update_record) (I.stored-update_one session c f u none s)
        | inr (x, e) ↦ rw (e, Write.update_record) (I.stored-update_one session c f u none s)
      ]

  rename-IsInside : (obj : Value) → IsInside (driver D) L (rename T C D ctx sprintf obj)
  unfolding rename
  rename-IsInside obj session c s =
      let update = doc (field "$set" (with_name "second" obj) end) in
      let same = stored-write session c ascending_id update s in
      elim (Bool-cases (str_eq (name_of obj) "first")) [
        | inl b ↦
            elim (Option-cases
              (err_of (Write.update_one C (D.session_context c session) ascending_id update s).0)) [
                | inl e ↦ rw (b, e, rename) same
                | inr (y, e) ↦ rw (b, e, rename) same
              ]
        | inr b ↦ rw (b, rename) refl
      ]

  update-IsInside : IsInside (driver D) L (update_in_transaction T C D ctx sprintf false)
  unfolding update_in_transaction Read.find_one
  update-IsInside session c s =
      let (found, t) =
        Read.find_one C (D.session_context c session) ascending_id (to_value zero_model) [] s in
      elim (Option-cases found.err) [
        | inl e ↦
            rw (e, update_in_transaction)
              (rename-IsInside found.result session c t ∙ I.stored-find_one session c _ _ s)
        | inr (y, e) ↦ rw (e, update_in_transaction) (I.stored-find_one session c _ _ s)
      ]

  is_none-true : (e : Option Err) → (is_none e ≡ true) ↔ (e ≡ none)
  is_none-true none = (λ _. refl, λ _. refl)
  is_none-true (some e) = (λ h. absurd cc, λ h. absurd cc)

  -- With an error feature that reports a failed assertion and a fresh one that reports nothing,
  -- at sessions as the driver documents them, where a call in a session's context cannot be seen
  -- outside of its transaction: after a reset, and with any other word than `with`, the step
  -- runs `RunTransaction` once, with no retries, leaves the server as that left it, and what it
  -- does is all or nothing; the step passes exactly if `RunTransaction` returns no error.
  pub transaction_step-Ended :
      (R : ReportsFailure T) (interference : String) (m : Component T) (s : C.State)
      → str_eq interference "with" ≡ false
      → let out =
          run_transaction (driver D) ctx false (update_in_transaction T C D ctx sprintf false) s in
        let step = run_transaction_step T C D ctx sprintf interference (reset T m, s) in
        Ended (driver D) L ctx (update_in_transaction T C D ctx sprintf false) s out
        × (step.1.1 ≡ out.1)
        × ((step.0 ≡ ok tt) ↔ (out.0.1 ≡ none))
  unfolding run_transaction_step reset call ◌>>=◌
  transaction_step-Ended R interference m s h =
      let fn = update_in_transaction T C D ctx sprintf false in
      let out = run_transaction (driver D) ctx false fn s in
      let w : Component T × C.State = (reset T m, out.1) in
      let (passes, passed) = asserted-ok T R (is_none out.0.1) w R.step_error-fresh in
      let (no_error, none_there) = is_none-true out.0.1 in
      rw (h, run_transaction_step)
        (
          run_transaction-Ended (driver D) L ctx fn s update-IsInside,
          asserted-server T (is_none out.0.1) w,
          (λ e. no_error (passes e), λ e. passed (none_there e)),
        )
