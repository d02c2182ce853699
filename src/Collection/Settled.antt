-- ===== src/Collection/Settled.antt =====
-- A method that returns a result or an error returns exactly one of them.
use dp_mongodb.Base.{◌≡◌, inl, inr, Bool, true, none, some, arith, Option-cases, if◌then◌else◌}
use dp_mongodb.Errors.{Err, wrap_mongo_error}
use dp_mongodb.Bson.{Value}
use dp_mongodb.Collection.Paging.{Reply-cases, wrap_mongo_error-none}
use dp_mongodb.Mongo.{Reply, UpdateResult, DriverCollection}
use dp_mongodb.Collection.Types.{Return, returned, CollectionUpdateResult, CollectionDeleteResult}
use dp_mongodb.Collection.Write.{update_record, update_many, delete_one, delete_many}

-- The error is what `wrapMongoError` makes of some error of the driver.
abbrev pub IsWrapped : Err → Type 0
IsWrapped e = (x : Err) × (wrap_mongo_error (some x) ≡ some e)

-- A result and no error, or no result and a wrapped error.
abbrev pub IsSettled : {A : Type 0} → Return A → Type 0
IsSettled (returned (some a) none) = Unit {0}
IsSettled (returned none (some e)) = IsWrapped e
IsSettled _ = ⊥

pub wrap_mongo_error-some : (x : Err) → (e : Err) × (wrap_mongo_error (some x) ≡ some e)
wrap_mongo_error-some x = elim (Option-cases (wrap_mongo_error (some x))) [
  | inl h ↦ absurd (ground (arith, wrap_mongo_error-none (some x)))
  | inr p ↦ p
]

wrapped-IsSettled :
    (A : Type 0) (x : Err) → IsSettled {A = A} (returned none (wrap_mongo_error (some x)))
wrapped-IsSettled A x = let (e, p) = wrap_mongo_error-some x in rw p (x, p)

module _ (C : DriverCollection) (ctx : C.Context) (s : C.State) where
  pub update_record-IsSettled :
      (selector update : Value) (upsert : Bool)
      → IsSettled (update_record C ctx selector update upsert s).0
  unfolding update_record
  update_record-IsSettled selector update upsert = elim (Reply-cases reply) [
    | inl (a, e) ↦ rw (e, update_record) tt
    | inr (x, e) ↦ rw (e, update_record) (wrapped-IsSettled CollectionUpdateResult x)
  ]
    where
      reply : Reply UpdateResult
      reply = (C.update_one ctx selector update (if upsert then some true else none) s).0

  pub update_many-IsSettled :
      (selector update : Value) → IsSettled (update_many C ctx selector update s).0
  unfolding update_many
  update_many-IsSettled selector update =
      elim (Reply-cases (C.update_many ctx selector update none s).0) [
        | inl (a, e) ↦ rw (e, update_many) tt
        | inr (x, e) ↦ rw (e, update_many) (wrapped-IsSettled CollectionUpdateResult x)
      ]

  pub delete_one-IsSettled : (selector : Value) → IsSettled (delete_one C ctx selector s).0
  unfolding delete_one
  delete_one-IsSettled selector = elim (Reply-cases (C.delete_one ctx selector s).0) [
    | inl (a, e) ↦ rw (e, delete_one) tt
    | inr (x, e) ↦ rw (e, delete_one) (wrapped-IsSettled CollectionDeleteResult x)
  ]

  pub delete_many-IsSettled : (selector : Value) → IsSettled (delete_many C ctx selector s).0
  unfolding delete_many
  delete_many-IsSettled selector = elim (Reply-cases (C.delete_many ctx selector s).0) [
    | inl (a, e) ↦ rw (e, delete_many) tt
    | inr (x, e) ↦ rw (e, delete_many) (wrapped-IsSettled CollectionDeleteResult x)
  ]
