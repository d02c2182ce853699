-- ===== src/Collection/Exact.antt =====
-- The counts that the methods return, which mongodb/collection.go converts from int64 to int, over
-- a connection of `mongodb.Open`.
use dp_mongodb.Base.{
  ℕ, ◌≤◌, ◌≡◌, inl, inr, Bool, true, Option, some, none, List, [], arith, if◌then◌else◌, Bool-cases,
  Option-cases, ◌&&◌, ◌||◌,
}
use dp_mongodb.Base.Int.{ℤ, pos, eqb_ℤ, ltb_ℤ, leb_ℤ}
use dp_mongodb.Bson.{Value}
use dp_mongodb.Options.{FindOption, FindOptions, new_find_options, as_driver_find_option}
use dp_mongodb.Mongo.{answer, UpdateResult, DriverCollection}
use dp_mongodb.Collection.Types.{Return, returned, CollectionUpdateResult, CollectionDeleteResult}
use dp_mongodb.Collection.Paging.{Reply-cases}
use dp_mongodb.Collection.Read.{count, find, find_counted, find_page, default_sort}
use dp_mongodb.Collection.Write.{update_record, update_many, delete_one, delete_many}
use dp_mongodb.Collection.Width.{Fits, to_int, to_int-id, Fits-le}

-- The driver's counts are `int64` values.
pub record IsInt64 (C : DriverCollection) : Type 0 where
  pub counted :
      (ctx : C.Context) (f : Value) (opts : _) (s : C.State)
      → Fits 64 (C.count_documents ctx f opts s).0.0
  pub updated :
      (ctx : C.Context) (f u : Value) (o : Option Bool) (s : C.State) (r : UpdateResult)
      → (C.update_one ctx f u o s).0 ≡ answer r
      → Fits 64 r.matched_count × Fits 64 r.modified_count × Fits 64 r.upserted_count
  pub updated_many :
      (ctx : C.Context) (f u : Value) (o : Option Bool) (s : C.State) (r : UpdateResult)
      → (C.update_many ctx f u o s).0 ≡ answer r
      → Fits 64 r.matched_count × Fits 64 r.modified_count
  pub deleted :
      (ctx : C.Context) (f : Value) (s : C.State) (n : ℤ)
      → (C.delete_one ctx f s).0 ≡ answer n
      → Fits 64 n
  pub deleted_many :
      (ctx : C.Context) (f : Value) (s : C.State) (n : ℤ)
      → (C.delete_many ctx f s).0 ≡ answer n
      → Fits 64 n

-- `int(x)` is `x`.
abbrev pub IsKept : ℕ → ℤ → Type 0
IsKept bits x = to_int bits x ≡ x

-- So are the counts of a result, where there is one.
abbrev pub UpdateKept : ℕ → Return CollectionUpdateResult → Type 0
UpdateKept bits (returned (some r) e) =
    IsKept bits r.matched_count × IsKept bits r.modified_count × IsKept bits r.upserted_count
UpdateKept bits _ = Unit {0}

abbrev pub DeleteKept : ℕ → Return CollectionDeleteResult → Type 0
DeleteKept bits (returned (some r) e) = IsKept bits r.deleted_count
DeleteKept bits _ = Unit {0}

module _ (bits : ℕ) (wide : 64 ≤ bits) where
  kept : (x : ℤ) → Fits 64 x → IsKept bits x
  kept x h = (to_int-id bits x).1 (Fits-le 64 bits x wide h)

  zero-IsKept : IsKept bits (pos 0)
  zero-IsKept = kept (pos 0) (omega arith)

  module _ (C : DriverCollection) (I : IsInt64 C) (ctx : C.Context) (s : C.State) where
    pub count-IsKept : (f : Value) (opts : List FindOption) → IsKept bits (count C ctx f opts s).0.0
    unfolding count
    count-IsKept f opts = kept _ (I.counted ctx f _ s)

    find_page-IsKept :
        (f : Value) (results : List Value) (fo : FindOptions) (tc : ℤ) (t : C.State)
        → IsKept bits tc
        → IsKept bits (find_page C ctx f results fo tc t).0.total
    unfolding find_page
    find_page-IsKept f results fo tc t h =
        elim (Reply-cases (C.find ctx f (as_driver_find_option (default_sort fo)) t).0) [
          | inl (cursor, e) ↦ rw (e, find_page) h
          | inr (x, e) ↦ rw (e, find_page) zero-IsKept
        ]

    find_counted-IsKept :
        (f : Value) (results : List Value) (fo : FindOptions) (tc : ℤ) (t : C.State)
        → IsKept bits tc
        → IsKept bits (find_counted C ctx f results fo tc t).0.total
    unfolding find_counted
    find_counted-IsKept f results fo tc t h = elim (Bool-cases (eqb_ℤ tc (pos 0))) [
      | inl e ↦ rw e zero-IsKept
      | inr e ↦
          elim (Bool-cases (
            (ltb_ℤ fo.limit (pos 0) || leb_ℤ tc fo.skip)
            || (eqb_ℤ fo.limit (pos 0) && fo.obey_zero_limit))) [
              | inl q ↦ rw (e, q) h
              | inr q ↦ rw (e, q) (find_page-IsKept f results fo tc t h)
            ]
    ]

    pub find-IsKept :
        (f : Value) (results : List Value) (opts : List FindOption)
        → IsKept bits (find C ctx f results opts s).0.total
    unfolding find
    find-IsKept f results opts = elim (Option-cases (C.count_documents ctx f [] s).0.1) [
      | inl e ↦
          rw (e, find)
            (find_counted-IsKept f results (new_find_options opts) _ _
              (kept _ (I.counted ctx f _ s)))
      | inr (x, e) ↦ rw (e, find) zero-IsKept
    ]

    pub update_record-Kept :
        (f u : Value) (upsert : Bool) → UpdateKept bits (update_record C ctx f u upsert s).0
    unfolding update_record
    update_record-Kept f u upsert =
        elim (Reply-cases (C.update_one ctx f u (if upsert then some true else none) s).0) [
          | inl (r, e) ↦
              let (a, b, c) = I.updated ctx f u _ s r e in
              rw (e, update_record) (kept _ a, kept _ b, kept _ c)
          | inr (x, e) ↦ rw (e, update_record) tt
        ]

    pub update_many-Kept : (f u : Value) → UpdateKept bits (update_many C ctx f u s).0
    unfolding update_many
    update_many-Kept f u = elim (Reply-cases (C.update_many ctx f u none s).0) [
      | inl (r, e) ↦
          let (a, b) = I.updated_many ctx f u _ s r e in
          rw (e, update_many) (kept _ a, kept _ b, zero-IsKept)
      | inr (x, e) ↦ rw (e, update_many) tt
    ]

    pub delete_one-Kept : (f : Value) → DeleteKept bits (delete_one C ctx f s).0
    unfolding delete_one
    delete_one-Kept f = elim (Reply-cases (C.delete_one ctx f s).0) [
      | inl (n, e) ↦ rw (e, delete_one) (kept n (I.deleted ctx f s n e))
      | inr (x, e) ↦ rw (e, delete_one) tt
    ]

    pub delete_many-Kept : (f : Value) → DeleteKept bits (delete_many C ctx f s).0
    unfolding delete_many
    delete_many-Kept f = elim (Reply-cases (C.delete_many ctx f s).0) [
      | inl (n, e) ↦ rw (e, delete_many) (kept n (I.deleted_many ctx f s n e))
      | inr (x, e) ↦ rw (e, delete_many) tt
    ]
