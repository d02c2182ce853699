-- ===== src/Options.antt =====
-- mongodb/options.go: the options of the find operations, and what the driver is given of them.
pub mod Laws
use dp_mongodb.Base.{Bool, true, false, Option, none, some, List, [], ◌∷◌, if◌then◌else◌}
use dp_mongodb.Base.Int.{ℤ, pos, ltb_ℤ, eqb_ℤ}
use dp_mongodb.Bson.{Value, nil_value}

-- The driver's `options.ReturnDocument`.
pub data When : Type 0 where
  before after : When

-- `findOptions`
pub record FindOptions : Type 0 where
  pub limit : ℤ
  pub return_document : When
  pub skip : ℤ
  pub sort : Value
  pub projection : Value
  pub obey_zero_limit : Bool

-- `FindOption`, by the constructor function that made it
pub data FindOption : Type 0 where
  sort_by : Value → FindOption
  offset : ℤ → FindOption
  limit_to : ℤ → FindOption
  project : Value → FindOption
  return_when : When → FindOption
  ignore_zero_limit : FindOption

-- The body of the function that each constructor returns.
unfoldable pub apply : FindOption → FindOptions → FindOptions
apply (sort_by s) f = record f { sort = s }
apply (offset o) f = record f { skip = o }
apply (limit_to l) f =
    let g = record f { limit = l } in
    if eqb_ℤ l (pos 0) then record g { obey_zero_limit = true } else g
apply (project p) f = record f { projection = p }
apply (return_when w) f = record f { return_document = w }
apply ignore_zero_limit f = record f { obey_zero_limit = false }

-- `&findOptions{}`
abbrev pub zero_options : FindOptions
zero_options = record {
  limit = pos 0;
  return_document = before;
  skip = pos 0;
  sort = nil_value;
  projection = nil_value;
  obey_zero_limit = false;
}

-- The loop of `newFindOptions`.
unfoldable pub apply_all : List FindOption → FindOptions → FindOptions
unfolding apply
apply_all [] f = f
apply_all (o ∷ opts) f = apply_all opts (apply o f)

unfoldable pub new_find_options : List FindOption → FindOptions
unfolding apply_all
new_find_options opts = apply_all opts zero_options

-- What the setters of the driver's option builders have been called with; `none` where a setter
-- has not been called.
pub record DriverOptions : Type 0 where
  pub set_sort : Option Value
  pub set_skip : Option ℤ
  pub set_limit : Option ℤ
  pub set_projection : Option Value
  pub set_return_document : Option When

-- `options.Find()` and its like
abbrev pub builder : DriverOptions
builder = record {
  set_sort = none;
  set_skip = none;
  set_limit = none;
  set_projection = none;
  set_return_document = none;
}

unfoldable pub as_driver_find_option : FindOptions → DriverOptions
as_driver_find_option fo = record builder {
  set_sort = some fo.sort;
  set_skip = some fo.skip;
  set_limit = some fo.limit;
  set_projection = some fo.projection;
}

unfoldable pub as_driver_find_one_option : FindOptions → DriverOptions
as_driver_find_one_option fo = record builder {
  set_sort = some fo.sort;
  set_skip = some fo.skip;
  set_projection = some fo.projection;
}

unfoldable pub as_driver_find_one_and_update_option : FindOptions → DriverOptions
as_driver_find_one_and_update_option fo = record builder {
  set_sort = some fo.sort;
  set_return_document = some fo.return_document;
  set_projection = some fo.projection;
}

unfoldable pub as_driver_count_option : FindOptions → DriverOptions
as_driver_count_option fo =
    let co = record builder { set_skip = some fo.skip } in
    if ltb_ℤ (pos 0) fo.limit then record co { set_limit = some fo.limit } else co
