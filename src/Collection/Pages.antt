-- ===== src/Collection/Pages.antt =====
-- The pages of a list of documents that `Find` and `Count` are asked for.
use dp_mongodb.Base.{
  ℕ, zero, suc, ◌≤◌, ◌<◌, ◌≡◌, refl, Bool, true, false, some, List, [], ◌∷◌, arith, length, take,
  drop, map, ◌||◌, ◌&&◌,
}
use dp_mongodb.Base.Int.{ℤ, pos, negsuc, ltb_ℤ, leb_ℤ, eqb_ℤ}
use dp_mongodb.Bson.{Value, nil_value, int, doc, field, end}
use dp_mongodb.Mongo.{limited}

-- The documents that a limit and a skip ask for. A negative limit asks for none, and so does a zero
-- limit that is to be obeyed; any other zero limit is no limit.
unfoldable pub page : ℤ → Bool → ℕ → List Value → List Value
page (negsuc n) obey k xs = []
page (pos zero) true k xs = []
page (pos zero) false k xs = drop k xs
page (pos (suc n)) obey k xs = take (suc n) (drop k xs)

-- The documents that `Count` counts.
unfoldable pub counted_page : ℤ → ℕ → List Value → List Value
counted_page (pos (suc n)) k xs = take (suc n) (drop k xs)
counted_page _ k xs = drop k xs

-- The order that a sort option asks for, that of ascending `_id` if there is none.
unfoldable pub order_of : Value → Value
order_of nil_value = doc (field "_id" (int (pos 1)) end)
order_of v = v

-- The caller's slice, written only if there is something to write.
unfoldable pub shown : List Value → List Value → List Value
shown old [] = old
shown old (x ∷ xs) = x ∷ xs

drop_all : (k : ℕ) (xs : List Value) → length xs ≤ k → drop k xs ≡ []
drop_all zero [] h = refl
drop_all zero (x ∷ xs) h = absurd (omega arith)
drop_all (suc k) [] h = refl
drop_all (suc k) (x ∷ xs) h = drop_all k xs (omega arith)

drop_some :
    (k : ℕ) (xs : List Value)
    → k < length xs
    → (y : Value) × (ys : List Value) × (drop k xs ≡ y ∷ ys)
drop_some zero [] h = absurd (omega arith)
drop_some zero (x ∷ xs) h = (x, xs, refl)
drop_some (suc k) [] h = absurd (omega arith)
drop_some (suc k) (x ∷ xs) h = drop_some k xs (omega arith)

-- The test of `Find` that returns with no page.
abbrev pub no_page : ℤ → Bool → ℤ → ℤ → Bool
no_page limit obey skip tc = (ltb_ℤ limit (pos 0) || leb_ℤ tc skip) || (eqb_ℤ limit (pos 0) && obey)

pub page-nil :
    (limit : ℤ) (obey : Bool) (k : ℕ) (xs : List Value) → length xs ≤ k → page limit obey k xs ≡ []
unfolding page
page-nil (negsuc n) obey k xs h = refl
page-nil (pos zero) true k xs h = refl
page-nil (pos zero) false k xs h = drop_all k xs h
page-nil (pos (suc n)) obey k xs h = rw (drop_all k xs h)

-- That test passes only if the page is empty.
pub page_of_no_page :
    (limit : ℤ) (obey : Bool) (skip : ℤ) (k n : ℕ) (xs : List Value)
    → skip ≡ pos k
    → length xs ≡ n
    → no_page limit obey skip (pos n) ≡ true
    → page limit obey k xs ≡ []
unfolding page
page_of_no_page (negsuc m) obey skip k n xs hk hn h = refl
page_of_no_page (pos zero) true skip k n xs hk hn h = refl
page_of_no_page (pos zero) false skip k n xs hk hn h = drop_all k xs (ground arith)
page_of_no_page (pos (suc m)) obey skip k n xs hk hn h = rw (drop_all k xs (ground arith))

-- If it fails, the page is what the driver gives, and is not empty, whatever is made of its
-- documents.
pub page_of_page :
    (limit : ℤ) (obey : Bool) (skip : ℤ) (k n : ℕ) (xs old : List Value)
    → skip ≡ pos k
    → length xs ≡ n
    → no_page limit obey skip (pos n) ≡ false
    → (l : ℕ) × (limit ≡ pos l)
      × (limited (some l) (drop k xs) ≡ page limit obey k xs)
      × ((f : Value → Value)
          → shown old (map f (page limit obey k xs)) ≡ map f (page limit obey k xs))
unfolding page shown
page_of_page (negsuc m) obey skip k n xs old hk hn h = absurd (ground arith)
page_of_page (pos zero) true skip k n xs old hk hn h = absurd (ground arith)
page_of_page (pos zero) false skip k n xs old hk hn h =
    let (y, ys, e) = drop_some k xs (ground arith) in (0, refl, refl, λ f. rw e refl)
page_of_page (pos (suc m)) obey skip k n xs old hk hn h =
    let (y, ys, e) = drop_some k xs (ground arith) in (suc m, refl, refl, λ f. rw e refl)
