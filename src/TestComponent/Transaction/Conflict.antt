-- ===== src/TestComponent/Transaction/Conflict.antt =====
-- The step that updates in a transaction, with a write from outside.
use dp_mongodb.Base.{
  ◌≡◌, ◌≢◌, refl, inl, inr, String, true, false, not, Option-cases, none, some, [],
}
use dp_mongodb.Base.Int.{pos}
use dp_mongodb.Base.Text.{str_eq}
use dp_mongodb.Errors.{Err}
use dp_mongodb.Bson.{Value, int, str, doc, field, end, by_id, ascending_id}
use dp_mongodb.Options.{DriverOptions}
use dp_mongodb.Mongo.{DriverCollection, UpdateResult, answer, failed}
use dp_mongodb.Collection.Paging.{Reply-cases, wrap_mongo_error-none}
use dp_mongodb.Collection.Settled.{wrap_mongo_error-some}
use dp_mongodb.Collection.Read as Read
use dp_mongodb.Collection.Write as Write
use dp_mongodb.Transaction.{session_options, run_transaction}
use dp_mongodb.Transaction.Failures.{Failed, run_transaction-Failed}
use dp_mongodb.TestComponent.Programs.{ok, ◌>>=◌, call}
use dp_mongodb.TestComponent.Queries.{zero_model}
use dp_mongodb.TestComponent.Results.{is_none}
use dp_mongodb.TestComponent.Verdicts.{ReportsFailure, asserted-ok}
use dp_mongodb.TestComponent.{to_value, Toolkit, Component, reset}
use dp_mongodb.TestComponent.Transaction.{
  Sessions, driver, name_of, with_name, rename, err_of, update_in_transaction, run_transaction_step,
}

-- `bson.M{"$set": bson.M{"name": "third"}}`
abbrev pub third : Value
third = doc (field "$set" (doc (field "name" (str "third") end)) end)

-- What the server documents of write conflicts, for a context that is no session's: once a
-- transaction has found a document by its id, and a write from outside has then changed that
-- document, its own write to it fails.
pub record HasConflicts (C : DriverCollection) (D : Sessions C) (ctx : C.Context) : Type 0 where
  pub conflict :
      (session : D.Session) (c : C.Context) (id u v : Value) (o : DriverOptions) (s : C.State)
      (r : UpdateResult)
      → let begun = D.start_transaction session s in
        let found = C.find_one (D.session_context c session) (by_id id) o begun.1 in
        let written = C.update_one ctx (by_id id) u none found.1 in
        begun.0 ≡ none
        → C.single_err found.0 ≡ none
        → written.0 ≡ answer r
        → r.modified_count ≢ pos 0
        → (e : Err) × ((C.update_one (D.session_context c session) (by_id id) v none written.1).0
            ≡ failed e)

module _ (C : DriverCollection) where
  -- A write of the collection fails where the driver's does.
  err_of-failed :
      (ctx : C.Context) (f u : Value) (s : C.State) (e : Err)
      → (C.update_one ctx f u none s).0 ≡ failed e
      → (x : Err) × (err_of (Write.update_one C ctx f u s).0 ≡ some x)
  unfolding Write.update_one Write.update_record
  err_of-failed ctx f u s e h = rw (h, Write.update_record) (wrap_mongo_error-some e)

  write-state :
      (ctx : C.Context) (f u : Value) (s : C.State)
      → (Write.update_one C ctx f u s).1 ≡ (C.update_one ctx f u none s).1
  unfolding Write.update_one Write.update_record
  write-state ctx f u s = elim (Reply-cases (C.update_one ctx f u none s).0) [
    | inl (r, e) ↦ rw (e, Write.update_record) refl
    | inr (x, e) ↦ rw (e, Write.update_record) refl
  ]

  found-single_err :
      (r : C.SingleResult) (v : Value) → (Read.decoded C r v).err ≡ none → C.single_err r ≡ none
  unfolding Read.decoded
  found-single_err r v h = elim (Option-cases (C.single_err r)) [
    | inl e ↦ e
    | inr (x, e) ↦ absurd (cc (wrap_mongo_error-none _ (rw (e, Read.decoded) at h)))
  ]

module _ (T : Toolkit) (C : DriverCollection) (D : Sessions C) (ctx : C.Context)
    (sprintf : String → Err → String) where
  rename-Failed :
      (obj : Value) (c : C.Context) (s : C.State) (e : Err)
      → str_eq (name_of obj) "first" ≡ true
      → (C.update_one c ascending_id (doc (field "$set" (with_name "second" obj) end)) none s).0
        ≡ failed e
      → Failed (rename T C D ctx sprintf obj c s)
  unfolding rename
  rename-Failed obj c s e first h =
      let (x, p) =
        err_of-failed C c ascending_id (doc (field "$set" (with_name "second" obj) end)) s e h in
      rw (first, p, rename) (_, refl)

  -- The run at `s` gets as far as its own write: the session and the transaction are started, a
  -- document is found whose name is "first", and the write from outside changes it.
  pub record IsInterfered (s : C.State) : Type 0 where
    pub session : D.Session
    pub opened : (D.start_session session_options s).0 ≡ inl session
    pub begun : (D.start_transaction session (D.start_session session_options s).1).0 ≡ none
    pub found :
        (Read.find_one C
          (D.session_context ctx session)
          ascending_id
          (to_value zero_model)
          []
          (D.start_transaction session (D.start_session session_options s).1).1).0.err
        ≡ none
    pub first :
        str_eq
          (name_of
            (Read.find_one C
              (D.session_context ctx session)
              ascending_id
              (to_value zero_model)
              []
              (D.start_transaction session (D.start_session session_options s).1).1).0.result)
          "first"
        ≡ true
    pub change : UpdateResult
    pub changed : change.modified_count ≢ pos 0
    pub written :
        (C.update_one ctx ascending_id third none
          (Read.find_one C
            (D.session_context ctx session)
            ascending_id
            (to_value zero_model)
            []
            (D.start_transaction session (D.start_session session_options s).1).1).1).0
        ≡ answer change

  err_of-answered :
      (c : C.Context) (f u : Value) (s : C.State) (r : UpdateResult)
      → (C.update_one c f u none s).0 ≡ answer r
      → err_of (Write.update_one C c f u s).0 ≡ none
  unfolding Write.update_one Write.update_record
  err_of-answered c f u s r h = rw (h, Write.update_record) refl

  update-Failed :
      HasConflicts C D ctx
      → (s : C.State) (I : IsInterfered s)
      → Failed (
          update_in_transaction T C D ctx sprintf true
            (D.session_context ctx I.session)
            (D.start_transaction I.session (D.start_session session_options s).1).1)
  unfolding update_in_transaction Read.find_one
  update-Failed H s I =
      let at = D.session_context ctx I.session in
      let t = (D.start_session session_options s).1 in
      let (found, u) =
        Read.find_one C at ascending_id (to_value zero_model) []
          (D.start_transaction I.session t).1 in
      let second = doc (field "$set" (with_name "second" found.result) end) in
      let (x, z) =
        H.conflict I.session ctx (int (pos 1)) third second _ t I.change I.begun
          (found-single_err C _ (to_value zero_model) I.found) I.written I.changed in
      rw
        (
          I.found,
          err_of-answered ctx ascending_id third u I.change I.written,
          update_in_transaction,
        )
        (rename-Failed found.result at _ x I.first (rw (write-state C ctx ascending_id third u) z))

  -- With an error feature that reports a failed assertion and a fresh one that reports nothing, at
  -- a server on which a transaction's write to a document fails, if it has found the document by its
  -- id and a write from outside has then changed it: wherever, with interference, the run of
  -- `RunTransaction` finds a document with the name "first" and the write from outside changes it,
  -- `RunTransaction` returns an error and, after a reset, the step passes.
  pub interference_fails :
      (R : ReportsFailure T) (H : HasConflicts C D ctx) (m : Component T) (s : C.State)
      → IsInterfered s
      → (Failed
          (run_transaction (driver D) ctx false (update_in_transaction T C D ctx sprintf true) s))
        × ((run_transaction_step T C D ctx sprintf "with" (reset T m, s)).0 ≡ ok tt)
  unfolding run_transaction_step reset call ◌>>=◌
  interference_fails R H m s I =
      let fn = update_in_transaction T C D ctx sprintf true in
      let out = run_transaction (driver D) ctx false fn s in
      let (e, h) =
        run_transaction-Failed (driver D) ctx fn s I.session I.opened I.begun
          (update-Failed H s I) in
      (
        (e, h),
        (asserted-ok T R (not (is_none out.0.1)) (reset T m, out.1) R.step_error-fresh).1
            (rw h refl),
      )
