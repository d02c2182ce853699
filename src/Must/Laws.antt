-- ===== src/Must/Laws.antt =====
-- The methods of `Must`: their results and errors, against what the driver finds.
use dp_mongodb.Base.{
  ℕ, zero, suc, ◌≡◌, refl, some, none, arith, length, false, Bool-cases, inl, inr,
}
use dp_mongodb.Base.Int.{ℤ, pos, eqb_ℤ, ltb_ℤ}
use dp_mongodb.Errors.{named, no_documents, wrap_mongo_error, is, name_eq, Name-discrete}
use dp_mongodb.Bson.{Value}
use dp_mongodb.Mongo.{UpdateResult, answer, DriverCollection, IsCounting, one_of}
use dp_mongodb.Collection.Types.{
  CollectionUpdateResult, CollectionDeleteResult, Return, returned, nil_dereference,
}
use dp_mongodb.Collection.Settled.{
  IsWrapped, IsSettled, update_record-IsSettled, update_many-IsSettled, delete_one-IsSettled,
  delete_many-IsSettled,
}
use dp_mongodb.Collection.Write as Write
use dp_mongodb.Must.{check_matched, check_deleted, update_one, update_many, delete_one, delete_many}

no_documents-IsWrapped : IsWrapped (named no_documents)
unfolding wrap_mongo_error is name_eq Name-discrete
no_documents-IsWrapped = (named no_documents, refl)

check_matched-IsSettled :
    (r : Return CollectionUpdateResult) → IsSettled r → IsSettled (check_matched r)
unfolding check_matched
check_matched-IsSettled (returned (some a) none) h =
    elim (Bool-cases (eqb_ℤ a.matched_count (pos 0))) [
      | inl e ↦ rw (e, check_matched) no_documents-IsWrapped
      | inr e ↦ rw (e, check_matched) tt
    ]
check_matched-IsSettled (returned none (some e)) h = h
check_matched-IsSettled (returned none none) h = h
check_matched-IsSettled (returned (some a) (some e)) h = absurd h
check_matched-IsSettled nil_dereference h = h

check_deleted-IsSettled :
    (r : Return CollectionDeleteResult) → IsSettled r → IsSettled (check_deleted r)
unfolding check_deleted
check_deleted-IsSettled (returned (some a) none) h =
    elim (Bool-cases (ltb_ℤ a.deleted_count (pos 1))) [
      | inl e ↦ rw (e, check_deleted) no_documents-IsWrapped
      | inr e ↦ rw (e, check_deleted) tt
    ]
check_deleted-IsSettled (returned none (some e)) h = h
check_deleted-IsSettled (returned none none) h = h
check_deleted-IsSettled (returned (some a) (some e)) h = absurd h
check_deleted-IsSettled nil_dereference h = h

-- Nothing found is an error; otherwise the result holds how many documents were.
abbrev pub Reports : {A : Type 0} → (A → ℤ) → ℕ → Return A → Type 0
Reports count zero r = r ≡ returned none (some (named no_documents))
Reports {A} count (suc n) r = (a : A) × (r ≡ returned (some a) none) × (count a ≡ pos (suc n))

abbrev pub matched : CollectionUpdateResult → ℤ
matched r = r.matched_count

abbrev pub deleted : CollectionDeleteResult → ℤ
deleted r = r.deleted_count

check_matched-Reports :
    (n : ℕ) (r : CollectionUpdateResult)
    → r.matched_count ≡ pos n
    → Reports matched n (check_matched (returned (some r) none))
unfolding check_matched
check_matched-Reports zero r h = ground arith
check_matched-Reports (suc n) r h = (r, ground arith, h)

check_deleted-Reports :
    (n : ℕ) (r : CollectionDeleteResult)
    → r.deleted_count ≡ pos n
    → Reports deleted n (check_deleted (returned (some r) none))
unfolding check_deleted
check_deleted-Reports zero r h = ground arith
check_deleted-Reports (suc n) r h = (r, ground arith, h)

module _ (C : DriverCollection) (ctx : C.Context) (s : C.State) where
  -- `Must.UpdateOne`, `UpdateMany`, `DeleteOne` and `DeleteMany` never dereference a nil result: in
  -- every state and for all arguments they return either a result and a nil error, or a nil result
  -- and a wrapped error.
  pub must-IsSettled :
      (selector update : Value)
      → IsSettled (update_one C ctx selector update s).0
        × IsSettled (update_many C ctx selector update s).0
        × IsSettled (delete_one C ctx selector s).0
        × IsSettled (delete_many C ctx selector s).0
  unfolding update_one update_many delete_one delete_many Write.update_one
  must-IsSettled selector update = (
    check_matched-IsSettled _ (update_record-IsSettled C ctx s selector update false),
    check_matched-IsSettled _ (update_many-IsSettled C ctx s selector update),
    check_deleted-IsSettled _ (delete_one-IsSettled C ctx s selector),
    check_deleted-IsSettled _ (delete_many-IsSettled C ctx s selector),
  )

module _ (C : DriverCollection) (L : IsCounting C) (ctx : C.Context) (selector : Value)
    (s t : C.State) where
  open L use {matching, updates_one, updates_many, deletes_one, deletes_many}

  -- Where the driver answers, `Must.UpdateOne` reports a missing document if no document matches the
  -- selector, and otherwise returns a result that says that one was matched.
  update_one-Reports :
      (update : Value) (r : UpdateResult)
      → C.update_one ctx selector update none s ≡ (answer r, t)
      → Reports matched (one_of (matching s selector)) (update_one C ctx selector update s).0
  unfolding update_one Write.update_one
  update_one-Reports update r h =
      rw (h, Write.update_record)
        (check_matched-Reports _ _ (updates_one ctx selector update s t r h))

  -- Where the driver answers, `Must.UpdateMany` reports a missing document if no document matches
  -- the selector, and otherwise returns a result that says how many matched.
  update_many-Reports :
      (update : Value) (r : UpdateResult)
      → C.update_many ctx selector update none s ≡ (answer r, t)
      → Reports matched (length (matching s selector)) (update_many C ctx selector update s).0
  unfolding update_many Write.update_many
  update_many-Reports update r h =
      rw (h, Write.update_many)
        (check_matched-Reports _ _ (updates_many ctx selector update s t r h))

  -- Where the driver answers, `Must.DeleteOne` reports a missing document if no document matches the
  -- selector, and otherwise returns a result that says that one was deleted.
  delete_one-Reports :
      (n : ℤ)
      → C.delete_one ctx selector s ≡ (answer n, t)
      → Reports deleted (one_of (matching s selector)) (delete_one C ctx selector s).0
  unfolding delete_one Write.delete_one
  delete_one-Reports n h =
      rw (h, Write.delete_one) (check_deleted-Reports _ _ (deletes_one ctx selector s t n h))

  -- Where the driver answers, `Must.DeleteMany` reports a missing document if no document matches
  -- the selector, and otherwise returns a result that says how many were deleted.
  delete_many-Reports :
      (n : ℤ)
      → C.delete_many ctx selector s ≡ (answer n, t)
      → Reports deleted (length (matching s selector)) (delete_many C ctx selector s).0
  unfolding delete_many Write.delete_many
  delete_many-Reports n h =
      rw (h, Write.delete_many) (check_deleted-Reports _ _ (deletes_many ctx selector s t n h))

-- Where the driver answers, `Must.UpdateOne`, `UpdateMany`, `DeleteOne` and `DeleteMany` report a
-- missing document if no document matches the selector, and otherwise return a result that says how
-- many were matched or deleted: one for the first and the third, all that match for the others.
pub must-Reports :
    (C : DriverCollection) (L : IsCounting C) (ctx : C.Context) (selector update : Value)
    (s t t' u u' : C.State) (r r' : UpdateResult) (n n' : ℤ)
    → C.update_one ctx selector update none s ≡ (answer r, t)
    → C.update_many ctx selector update none s ≡ (answer r', t')
    → C.delete_one ctx selector s ≡ (answer n, u)
    → C.delete_many ctx selector s ≡ (answer n', u')
    → let found = L.matching s selector in
      Reports matched (one_of found) (update_one C ctx selector update s).0
      × Reports matched (length found) (update_many C ctx selector update s).0
      × Reports deleted (one_of found) (delete_one C ctx selector s).0
      × Reports deleted (length found) (delete_many C ctx selector s).0
must-Reports C L ctx selector update s t t' u u' r r' n n' h h' k k' = (
  update_one-Reports C L ctx selector s t update r h,
  update_many-Reports C L ctx selector s t' update r' h',
  delete_one-Reports C L ctx selector s u n k,
  delete_many-Reports C L ctx selector s u' n' k',
)
