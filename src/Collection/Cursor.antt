-- ===== src/Collection/Cursor.antt =====
-- `FindCursor` against the contract of `Find`.
use dp_mongodb.Base.{
  ℕ, zero, suc, ◌≡◌, refl, ap, sym, inl, inr, ◌∙◌, arith, false, some, none, List, drop, map,
}
use dp_mongodb.Base.Int.{pos}
use dp_mongodb.Bson.{Value}
use dp_mongodb.Options.{FindOption, FindOptions, new_find_options, as_driver_find_option}
use dp_mongodb.Mongo.{Reply, answer, DriverCollection, IsLawful, limited}
use dp_mongodb.Collection.Types.{returned}
use dp_mongodb.Collection.Read.{default_sort, find_cursor}
use dp_mongodb.Collection.Pages.{page, order_of}
use dp_mongodb.Collection.Paging.{Reply-cases, default_sort-order}

limited-page : (l k : ℕ) (xs : List Value) → limited (some l) (drop k xs) ≡ page (pos l) false k xs
unfolding page
limited-page zero k xs = refl
limited-page (suc l) k xs = refl

skip-find_option :
    (fo : FindOptions) → (as_driver_find_option (default_sort fo)).set_skip ≡ some fo.skip
unfolding as_driver_find_option
skip-find_option fo = ground arith

limit-find_option :
    (fo : FindOptions) → (as_driver_find_option (default_sort fo)).set_limit ≡ some fo.limit
unfolding as_driver_find_option
limit-find_option fo = ground arith

sort-find_option :
    (fo : FindOptions)
    → (as_driver_find_option (default_sort fo)).set_sort ≡ some (order_of fo.sort)
unfolding as_driver_find_option
sort-find_option fo = ap some (default_sort-order fo)

projection-find_option :
    (fo : FindOptions)
    → (as_driver_find_option (default_sort fo)).set_projection ≡ some fo.projection
unfolding as_driver_find_option
projection-find_option fo = ground arith

module _ (C : DriverCollection) (L : IsLawful C) (ctx : C.Context) (filter : Value) where
  open L use {matching, sorted, projected, finds}

  -- A cursor that is returned is the driver's, for the options that say what `Find` asks for.
  find_cursor-answer :
      (opts : List FindOption) (s t : C.State) (cursor : C.Cursor)
      → find_cursor C ctx filter opts s ≡ (returned (some cursor) none, t)
      → C.find ctx filter (as_driver_find_option (default_sort (new_find_options opts))) s
        ≡ (answer cursor, t)
  unfolding find_cursor
  find_cursor-answer opts s t cursor e = elim (Reply-cases found.0) [
    | inl (c, q) ↦
        let same : (returned (some c) none, found.1) ≡ (returned (some cursor) none, t) =
          rw (q, find_cursor) at e in
        let reply : found.0 ≡ answer cursor = cc (q, same) in λ i. (reply i, (same i).1)
    | inr (x, q) ↦ absurd (cc (rw (q, find_cursor) at e))
  ]
    where
      found : Reply C.Cursor × C.State
      found = C.find ctx filter (as_driver_find_option (default_sort (new_find_options opts))) s

  -- Where `FindCursor` returns a cursor and all documents of it can be read, with a skip and a limit
  -- that are not negative, they are the page that the options ask for, of the matching documents in
  -- the order of the sort option, or of ascending `_id` if there is none, each as the projection
  -- leaves it; but a zero limit is no limit, even if it is to be obeyed.
  pub find_cursor-page :
      (opts : List FindOption) (k l : ℕ) (s t u : C.State) (cursor : C.Cursor) (old xs : List Value)
      → let fo = new_find_options opts in
        fo.skip ≡ pos k
        → fo.limit ≡ pos l
        → find_cursor C ctx filter opts s ≡ (returned (some cursor) none, t)
        → C.all cursor ctx old t ≡ ((xs, none), u)
        → xs
          ≡ map
              (projected fo.projection)
              (page fo.limit false k (sorted (order_of fo.sort) (matching s filter)))
  find_cursor-page opts k l s t u cursor old xs hk hl e h =
      let fo = new_find_options opts in
      let ordered = sorted (order_of fo.sort) (matching s filter) in
      finds ctx filter (as_driver_find_option (default_sort fo)) (order_of fo.sort) fo.projection k
        l s t u cursor old xs (sort-find_option fo) (skip-find_option fo ∙ ap some hk)
        (limit-find_option fo ∙ ap some hl) (projection-find_option fo)
        (find_cursor-answer opts s t cursor e) h
      ∙ ap (map (projected fo.projection))
          (limited-page l k ordered ∙ ap (λ n. page n false k ordered) (sym hl))
