-- ===== src/Bson.antt =====
-- The values that callers pass as filters, updates, documents, sort orders and projections
-- (`interface{}` in Go), at the moment of the call. `nil_value` is the nil interface.
use dp_mongodb.Base.{ℕ, String, Bool}
use dp_mongodb.Base.Int.{ℤ, pos}

mutual
  pub data Value : Type 0 where
    nil_value : Value
    bool : Bool → Value
    int : ℤ → Value
    str : String → Value
    -- any other Go value, known by a number
    opaque : ℕ → Value
    doc : Fields → Value

  pub data Fields : Type 0 where
    end : Fields
    field : String → Value → Fields → Fields

-- `bson.M{"_id": id}`
abbrev pub by_id : Value → Value
by_id id = doc (field "_id" id end)

-- `bson.M{"_id": 1}`
abbrev pub ascending_id : Value
ascending_id = by_id (int (pos 1))

-- `v == nil`
abbrev pub is_nil : Value → Bool
is_nil nil_value = Bool.true
is_nil _ = Bool.false
