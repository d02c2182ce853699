-- ===== src/Mongo.antt =====
-- The driver's `mongo.Collection`, which is not part of the repository, as an interface: the calls
-- that mongodb/collection.go makes, over an unknown state of the server and the connection.
-- The laws, which are the driver's documented behaviour, are hypotheses of the theorems.
use dp_mongodb.Base.{
  ℕ, ◌≡◌, String, Bool, Option, none, some, List, [], ◌∷◌, length, take, drop, map,
}
use mathlib.Core.Option
use dp_mongodb.Base.Int.{ℤ, pos}
use dp_mongodb.Errors.{Err}
use dp_mongodb.Bson.{Value}
use dp_mongodb.Options.{DriverOptions}

-- A pointer and an error, of which the driver sets the pointer where the error is nil. Where the
-- error is not nil the code does not read the pointer.
pub data Reply (A : Type 0) : Type 0 where
  answer : A → Reply A
  failed : Err → Reply A

-- `mongo.UpdateResult`
pub record UpdateResult : Type 0 where
  pub matched_count : ℤ
  pub modified_count : ℤ
  pub upserted_count : ℤ
  pub upserted_id : Value

pub record DriverCollection : Type 1 where
  pub Context : Type 0
  pub State : Type 0
  pub Cursor : Type 0
  pub SingleResult : Type 0
  pub distinct : Context → String → Value → State → (List Value × Option Err) × State
  pub count_documents : Context → Value → List DriverOptions → State → (ℤ × Option Err) × State
  pub find : Context → Value → DriverOptions → State → Reply Cursor × State
  -- `cursor.All`: what it leaves in the slice that it is given
  pub all : Cursor → Context → List Value → State → (List Value × Option Err) × State
  pub find_one : Context → Value → DriverOptions → State → SingleResult × State
  pub find_one_and_update : Context → Value → Value → DriverOptions → State → SingleResult × State
  pub single_err : SingleResult → Option Err
  -- `r.Decode`: what it leaves in the document that it is given
  pub decode : SingleResult → Value → Value × Option Err
  pub insert_one : Context → Value → State → Reply Value × State
  pub insert_many : Context → List Value → State → Reply (List Value) × State
  -- The third argument is what `SetUpsert` was called with.
  pub update_one : Context → Value → Value → Option Bool → State → Reply UpdateResult × State
  pub update_many : Context → Value → Value → Option Bool → State → Reply UpdateResult × State
  pub delete_one : Context → Value → State → Reply ℤ × State
  pub delete_many : Context → Value → State → Reply ℤ × State
  pub aggregate : Context → Value → State → Reply Cursor × State

-- At most as many documents as a limit says. Without a limit, and for a limit of 0, these are all.
abbrev pub limited : Option ℕ → List Value → List Value
limited (some (ℕ.suc n)) xs = take (ℕ.suc n) xs
limited _ xs = xs

-- What the driver documents of its answers, where it answers. Queries do not change what is stored.
pub record IsLawful (C : DriverCollection) : Type 0 where
  -- the documents that match a filter, in the order in which the server keeps them
  pub matching : C.State → Value → List Value
  -- documents in the order that a sort document asks for
  pub sorted : Value → List Value → List Value
  pub length-sorted : (v : Value) (xs : List Value) → length (sorted v xs) ≡ length xs
  -- with no option every matching document is counted
  pub counts_all :
      (ctx : C.Context) (f : Value) (s t : C.State) (n : ℤ)
      → C.count_documents ctx f [] s ≡ ((n, none), t)
      → (n ≡ pos (length (matching s f))) × (matching t f ≡ matching s f)
  -- with options the documents are skipped and limited first. Of a negative limit, and of a negative
  -- skip, nothing is said.
  pub counts_some :
      (ctx : C.Context) (f : Value) (o : DriverOptions) (k : ℕ) (l : Option ℕ) (s t : C.State)
      (n : ℤ)
      → o.set_skip ≡ some (pos k)
      → o.set_limit ≡ Option.map pos l
      → C.count_documents ctx f (o ∷ []) s ≡ ((n, none), t)
      → n ≡ pos (length (limited l (drop k (matching s f))))
  -- a document as a projection leaves it
  pub projected : Value → Value → Value
  -- a cursor yields the matching documents sorted, skipped, limited and projected
  pub finds :
      (ctx : C.Context) (f : Value) (o : DriverOptions) (v p : Value) (k l : ℕ) (s t u : C.State)
      (cursor : C.Cursor) (old xs : List Value)
      → o.set_sort ≡ some v
      → o.set_skip ≡ some (pos k)
      → o.set_limit ≡ some (pos l)
      → o.set_projection ≡ some p
      → C.find ctx f o s ≡ (answer cursor, t)
      → C.all cursor ctx old t ≡ ((xs, none), u)
      → xs ≡ map (projected p) (limited (some l) (drop k (sorted v (matching s f))))

-- The number of documents that an operation on one document reaches.
abbrev pub one_of : List Value → ℕ
one_of [] = 0
one_of (x ∷ xs) = 1

-- What the driver documents of the counts in its answers to updates that do not upsert, and to
-- deletions.
pub record IsCounting (C : DriverCollection) : Type 0 where
  -- the documents that match a selector
  pub matching : C.State → Value → List Value
  pub updates_one :
      (ctx : C.Context) (selector update : Value) (s t : C.State) (r : UpdateResult)
      → C.update_one ctx selector update none s ≡ (answer r, t)
      → r.matched_count ≡ pos (one_of (matching s selector))
  pub updates_many :
      (ctx : C.Context) (selector update : Value) (s t : C.State) (r : UpdateResult)
      → C.update_many ctx selector update none s ≡ (answer r, t)
      → r.matched_count ≡ pos (length (matching s selector))
  pub deletes_one :
      (ctx : C.Context) (selector : Value) (s t : C.State) (n : ℤ)
      → C.delete_one ctx selector s ≡ (answer n, t)
      → n ≡ pos (one_of (matching s selector))
  pub deletes_many :
      (ctx : C.Context) (selector : Value) (s t : C.State) (n : ℤ)
      → C.delete_many ctx selector s ≡ (answer n, t)
      → n ≡ pos (length (matching s selector))
