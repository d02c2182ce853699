-- ===== src/Timestamps/Heap.antt =====
-- Go maps by reference, and programs over them that may panic.
use dp_mongodb.Base.{ℕ, suc, String, Bool, Option, none, some, if◌then◌else◌, ◌==◌, ◌&&◌}
use dp_mongodb.Base.Text.{str_eq}

-- A `bson.M`: nil, or the address of a map.
pub data Ref : Type 0 where
  nil_map : Ref
  at : ℕ → Ref

-- The values of a `bson.M`, by their dynamic types.
pub data Val : Type 0 where
  bool : Bool → Val
  m : Ref → Val
  str : String → Val
  timestamp : ℕ → ℕ → Val
  -- a value of any other type, and the nil interface
  other : ℕ → Val

-- The maps by address. The addresses from `next` on are not in use.
pub record Heap : Type 0 where
  pub next : ℕ
  pub maps : ℕ → String → Option Val

pub data Outcome (A : Type 0) : Type 0 where
  value : A → Outcome A
  panic : Outcome A

abbrev pub Program : Type 0 → Type 0
Program A = Heap → Outcome A × Heap

abbrev pub pure : {A : Type 0} → A → Program A
pure a h = (value a, h)

abbrev pub crash : {A : Type 0} → Program A
crash h = (panic, h)

abbrev pub then_run : {A B : Type 0} → Outcome A × Heap → (A → Program B) → Outcome B × Heap
then_run (value a, h) f = f a h
then_run (panic, h) f = (panic, h)

infixl 5 ◌>>=◌ ◌>>◌
abbrev pub ◌>>=◌ : {A B : Type 0} → Program A → (A → Program B) → Program B
◌>>=◌ p f h = then_run (p h) f

abbrev pub ◌>>◌ : {B : Type 0} → Program (Unit {0}) → Program B → Program B
p >> q = p >>= λ _. q

-- `r[k]`, where a missing key is `none`; a nil map has no keys
abbrev pub entry : Heap → Ref → String → Option Val
entry h nil_map k = none
entry h (at a) k = h.maps a k

abbrev pub index : Ref → String → Program (Option Val)
index r k h = (value (entry h r k), h)

abbrev pub write : Heap → ℕ → String → Val → Heap
write h a k v = record h { maps = λ b j. if a == b && str_eq k j then some v else h.maps b j }

-- `r[k] = v`, which panics for a nil map
abbrev pub assign : Ref → String → Val → Program (Unit {0})
assign nil_map k v h = (panic, h)
assign (at a) k v h = (value tt, write h a k v)

-- `bson.M{}`
abbrev pub make : Program Ref
make h = (
  value (at h.next),
  record { next = suc h.next; maps = λ b j. if h.next == b then none else h.maps b j },
)
