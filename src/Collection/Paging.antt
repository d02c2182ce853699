-- ===== src/Collection/Paging.antt =====
-- `Find` and `Count` against their contract: the number of matching documents, and a page of them.
use dp_mongodb.Base.{
  ℕ, zero, suc, map, ◌≡◌, refl, ap, ◌⊎◌, inl, inr, true, Option, none, some, List, [], ◌∷◌, ◌∙◌,
  sym, arith, length, drop, Option-cases, Bool-cases,
}
use mathlib.Core.Option
use dp_mongodb.Base.Int.{ℤ, pos, negsuc, eqb_ℤ}
use dp_mongodb.Errors.{Err, wrap_mongo_error}
use dp_mongodb.Bson.{Value, nil_value, bool, int, str, opaque, doc}
use dp_mongodb.Options.{
  FindOptions, FindOption, DriverOptions, new_find_options, as_driver_find_option,
  as_driver_count_option,
}
use dp_mongodb.Mongo.{Reply, answer, failed, DriverCollection, IsLawful, limited}
use dp_mongodb.Collection.Read.{default_sort, find_page, find_counted, find, count}
use dp_mongodb.Collection.Pages.{
  page, counted_page, order_of, shown, no_page, page-nil, page_of_no_page, page_of_page,
}

zero_of_eqb : (n : ℕ) → eqb_ℤ (pos n) (pos 0) ≡ true → n ≡ 0
zero_of_eqb n h = ground arith

skip-count_option : (fo : FindOptions) → (as_driver_count_option fo).set_skip ≡ some fo.skip
unfolding as_driver_count_option
skip-count_option fo = ground arith

-- The limit that `Count` asks for, if there is one.
limit_of : ℤ → Option ℕ
limit_of (pos (suc n)) = some (suc n)
limit_of _ = none

limit-count_option :
    (fo : FindOptions) (l : ℤ)
    → fo.limit ≡ l
    → (as_driver_count_option fo).set_limit ≡ Option.map pos (limit_of l)
unfolding as_driver_count_option limit_of
limit-count_option fo (pos zero) h = ground arith
limit-count_option fo (pos (suc n)) h = ground arith
limit-count_option fo (negsuc n) h = ground arith

limited-counted_page :
    (l : ℤ) (k : ℕ) (xs : List Value) → limited (limit_of l) (drop k xs) ≡ counted_page l k xs
unfolding limit_of counted_page
limited-counted_page (pos zero) k xs = refl
limited-counted_page (pos (suc n)) k xs = refl
limited-counted_page (negsuc n) k xs = refl

sorted_by : (fo : FindOptions) (v : Value) → fo.sort ≡ v → (default_sort fo).sort ≡ order_of v
unfolding order_of
sorted_by fo nil_value h = ground arith
sorted_by fo (bool b) h = ground arith
sorted_by fo (int n) h = ground arith
sorted_by fo (str t) h = ground arith
sorted_by fo (opaque n) h = ground arith
sorted_by fo (doc fs) h = ground arith

pub default_sort-order : (fo : FindOptions) → (default_sort fo).sort ≡ order_of fo.sort
default_sort-order fo = sorted_by fo fo.sort refl

pub Reply-cases :
    {A : Type 0} (r : Reply A) → ((a : A) × (r ≡ answer a)) ⊎ ((e : Err) × (r ≡ failed e))
Reply-cases (answer a) = inl (a, refl)
Reply-cases (failed e) = inr (e, refl)

pub wrap_mongo_error-none : (e : Option Err) → wrap_mongo_error e ≡ none → e ≡ none
unfolding wrap_mongo_error
wrap_mongo_error-none e h = ground arith

module _ (C : DriverCollection) (L : IsLawful C) (ctx : C.Context) (filter : Value) where
  open L use {matching, sorted, length-sorted, counts_all, counts_some, projected, finds}

  find_page-page :
      (results : List Value) (fo : FindOptions) (k l : ℕ) (tc : ℤ) (s : C.State)
      → fo.skip ≡ pos k
      → fo.limit ≡ pos l
      → (find_page C ctx filter results fo tc s).0.err ≡ none
      → ((find_page C ctx filter results fo tc s).0.total ≡ tc)
        × ((find_page C ctx filter results fo tc s).0.results
            ≡ map
                (projected fo.projection)
                (limited (some l) (drop k (sorted (order_of fo.sort) (matching s filter)))))
  unfolding find_page as_driver_find_option
  find_page-page results fo k l tc s hk hl = elim (Reply-cases found.0) [
    | inl (cursor, e) ↦
        rw (e, find_page)
          λ h. (
            refl,
            finds ctx filter (as_driver_find_option (default_sort fo)) (order_of fo.sort)
                fo.projection k l s found.1 (read cursor).1 cursor results (read cursor).0.0
                (ap some (default_sort-order fo)) (ground arith) (ground arith) (ground arith)
                (ap (λ r. (r, found.1)) e)
                (ap (λ x. (((read cursor).0.0, x), (read cursor).1)) (wrap_mongo_error-none _ h)),
          )
    | inr (e, q) ↦ rw (q, find_page) λ h. cc (wrap_mongo_error-none (some e) h)
  ]
    where
      found : Reply C.Cursor × C.State
      found = C.find ctx filter (as_driver_find_option (default_sort fo)) s

      read : C.Cursor → (List Value × Option Err) × C.State
      read cursor = C.all cursor ctx results found.1

  -- After a count that gave the number of matching documents.
  find_counted-page :
      (results : List Value) (fo : FindOptions) (k : ℕ) (s : C.State)
      → fo.skip ≡ pos k
      → let found = (find_counted C ctx filter results fo (pos (length (matching s filter))) s).0 in
        found.err ≡ none
        → (found.total ≡ pos (length (matching s filter)))
          × (found.results
              ≡ shown results (
                  map (projected fo.projection) (
                    page fo.limit fo.obey_zero_limit k
                      (sorted (order_of fo.sort) (matching s filter)))))
  unfolding find_counted shown
  find_counted-page results fo k s hk = elim (Bool-cases (eqb_ℤ (pos total) (pos 0))) [
    | inl e ↦ rw e λ h. (
      ap pos (sym (zero_of_eqb total e)),
      rw (page-nil fo.limit fo.obey_zero_limit k ordered (omega (arith, same, zero_of_eqb total e)))
          refl,
    )
    | inr e ↦ elim (Bool-cases (no_page fo.limit fo.obey_zero_limit fo.skip (pos total))) [
      | inl q ↦
          rw (e, q)
            λ h. (
              refl,
              rw (page_of_no_page fo.limit fo.obey_zero_limit fo.skip k total ordered hk same q)
                  refl,
            )
      | inr q ↦
          let (l, hl, w, z) =
            page_of_page fo.limit fo.obey_zero_limit fo.skip k total ordered results hk same q in
          rw (e, q)
            λ h. (
              (find_page-page results fo k l (pos total) s hk hl h).0,
              (find_page-page results fo k l (pos total) s hk hl h).1
                  ∙ ap (map (projected fo.projection)) w
                  ∙ sym (z (projected fo.projection)),
            )
    ]
  ]
    where
      total : ℕ
      total = length (matching s filter)

      ordered : List Value
      ordered = sorted (order_of fo.sort) (matching s filter)

      same : length ordered ≡ total
      same = length-sorted _ _

  -- Wherever `Find` returns no error, with a skip that is not negative, it returns the number of all
  -- the documents that match the filter, whatever the options are, and it leaves in `results` the
  -- page that the options ask for, of the matching documents in the order of the sort option, or of
  -- ascending `_id` if there is none, each as the projection leaves it; where that page is empty,
  -- `results` is left as it was.
  pub find-page :
      (results : List Value) (opts : List FindOption) (k : ℕ) (s : C.State)
      → let fo = new_find_options opts in
        let found = (find C ctx filter results opts s).0 in
        fo.skip ≡ pos k
        → found.err ≡ none
        → (found.total ≡ pos (length (matching s filter)))
          × (found.results
              ≡ shown results (
                  map (projected fo.projection) (
                    page fo.limit fo.obey_zero_limit k
                      (sorted (order_of fo.sort) (matching s filter)))))
  unfolding find
  find-page results opts k s hk = elim (Option-cases counted.0.1) [
    | inl e ↦
        let (n, same) =
          counts_all ctx filter s counted.1 counted.0.0
            (ap (λ x. ((counted.0.0, x), counted.1)) e) in
        rw (e, find, n, ← same) (find_counted-page results (new_find_options opts) k counted.1 hk)
    | inr (x, e) ↦ rw (e, find) λ h. cc
  ]
    where
      counted : (ℤ × Option Err) × C.State
      counted = C.count_documents ctx filter [] s

  -- Wherever `Count` returns no error, with a skip that is not negative, it returns the number of
  -- matching documents that are left when as many as the skip says are left out, and at most as
  -- many as the limit says are counted; a limit that is zero or negative is no limit.
  pub count-page :
      (opts : List FindOption) (k : ℕ) (s : C.State)
      → let fo = new_find_options opts in
        let counted = (count C ctx filter opts s).0 in
        fo.skip ≡ pos k
        → counted.1 ≡ none
        → counted.0 ≡ pos (length (counted_page fo.limit k (matching s filter)))
  unfolding count
  count-page opts k s hk h =
      counts_some ctx filter fo k (limit_of options.limit) s counted.1 counted.0.0
        (skip-count_option _ ∙ ap some hk) (limit-count_option options options.limit refl)
        (ap (λ x. ((counted.0.0, x), counted.1)) (wrap_mongo_error-none _ h))
      ∙ ap (λ xs. pos (length xs)) (limited-counted_page options.limit k (matching s filter))
    where
      options : FindOptions
      options = new_find_options opts

      fo : DriverOptions
      fo = as_driver_count_option options

      counted : (ℤ × Option Err) × C.State
      counted = C.count_documents ctx filter (fo ∷ []) s
