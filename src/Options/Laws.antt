-- ===== src/Options/Laws.antt =====
-- The options read declaratively: of each kind the last one given counts.
use dp_mongodb.Base.{
  ◌≡◌, refl, Bool, true, false, Option, none, some, List, [], ◌∷◌, inl, inr, Bool-cases,
  if◌then◌else◌,
}
use dp_mongodb.Base.Int.{ℤ, pos, eqb_ℤ}
use dp_mongodb.Bson.{Value}
use dp_mongodb.Options.{
  When, FindOptions, FindOption, sort_by, offset, limit_to, project, return_when, ignore_zero_limit,
  zero_options, apply_all, new_find_options,
}

-- The last entry of a list that a reader finds, or a default.
pub last_of {ℓ} : {A : Type ℓ} → (FindOption → Option A) → A → List FindOption → A
last_of pick d [] = d
last_of pick d (o ∷ opts) = last_of pick (elim (pick o) [ none ↦ d | some a ↦ a ]) opts

abbrev pub sort_of : FindOption → Option Value
sort_of (sort_by s) = some s
sort_of _ = none

abbrev pub skip_of : FindOption → Option ℤ
skip_of (offset o) = some o
skip_of _ = none

abbrev pub limit_of : FindOption → Option ℤ
limit_of (limit_to l) = some l
limit_of _ = none

abbrev pub projection_of : FindOption → Option Value
projection_of (project p) = some p
projection_of _ = none

abbrev pub return_document_of : FindOption → Option When
return_document_of (return_when w) = some w
return_document_of _ = none

-- A limit of zero asks to be obeyed, `IgnoreZeroLimit` asks that it is not, another limit says
-- nothing.
abbrev pub zero_limit_of : FindOption → Option Bool
zero_limit_of (limit_to l) = if eqb_ℤ l (pos 0) then some true else none
zero_limit_of ignore_zero_limit = some false
zero_limit_of _ = none

abbrev pub reading : FindOptions → List FindOption → FindOptions
reading f opts = record {
  limit = last_of limit_of f.limit opts;
  return_document = last_of return_document_of f.return_document opts;
  skip = last_of skip_of f.skip opts;
  sort = last_of sort_of f.sort opts;
  projection = last_of projection_of f.projection opts;
  obey_zero_limit = last_of zero_limit_of f.obey_zero_limit opts;
}

apply_all-reading : (f : FindOptions) (opts : List FindOption) → apply_all opts f ≡ reading f opts
unfolding apply_all last_of
apply_all-reading f [] = refl
apply_all-reading f (sort_by s ∷ opts) = apply_all-reading _ opts
apply_all-reading f (offset o ∷ opts) = apply_all-reading _ opts
apply_all-reading f (limit_to l ∷ opts) = elim (Bool-cases (eqb_ℤ l (pos 0))) [
  | inl e ↦ rw e (apply_all-reading _ opts)
  | inr e ↦ rw e (apply_all-reading _ opts)
]
apply_all-reading f (project p ∷ opts) = apply_all-reading _ opts
apply_all-reading f (return_when w ∷ opts) = apply_all-reading _ opts
apply_all-reading f (ignore_zero_limit ∷ opts) = apply_all-reading _ opts

-- Each field of the options that `newFindOptions` returns is the one that the last option about it
-- set, and has Go's zero value if there is none; whatever the order of the other options. A zero
-- limit is to be obeyed if the last option that is a zero limit or `IgnoreZeroLimit` is a zero limit.
pub new_find_options-reading :
    (opts : List FindOption) → new_find_options opts ≡ reading zero_options opts
unfolding new_find_options
new_find_options-reading opts = apply_all-reading zero_options opts
