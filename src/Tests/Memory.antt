-- ===== src/Tests/Memory.antt =====
-- A driver's collection kept in memory, which has the properties that the theorems assume. It keeps
-- documents in the order of their ids; a filter is an id, or matches everything.
use dp_mongodb.Base.{
  ℕ, ◌≡◌, refl, ap, sym, ◌∙◌, Bool, true, false, Option, none, some, List, [], ◌∷◌, length, drop,
  map, ◌==◌, if◌then◌else◌,
}
use mathlib.Core.Path.{ap₂}
use mathlib.Core.Option
use dp_mongodb.Base.Int.{ℤ, pos}
use dp_mongodb.Errors.{named, no_documents}
use dp_mongodb.Bson.{Value, nil_value, int, doc, field, end, by_id}
use dp_mongodb.Options.{DriverOptions}
use dp_mongodb.Mongo.{
  Reply, answer, failed, UpdateResult, DriverCollection, IsLawful, IsCounting, limited, one_of,
}

abbrev id_of : Value → Option ℕ
id_of (doc (field k (int (pos n)) fs)) = some n
id_of _ = none

abbrev same_id : Option ℕ → Option ℕ → Bool
same_id none d = true
same_id (some n) none = false
same_id (some n) (some k) = n == k

abbrev pub matching : List Value → Value → List Value
matching [] f = []
matching (d ∷ ds) f = if same_id (id_of f) (id_of d) then d ∷ matching ds f else matching ds f

abbrev others : List Value → Value → List Value
others [] f = []
others (d ∷ ds) f = if same_id (id_of f) (id_of d) then others ds f else d ∷ others ds f

abbrev number : Option ℤ → ℕ
number (some (pos n)) = n
number _ = 0

abbrev limit_number : Option ℤ → Option ℕ
limit_number (some (pos n)) = some n
limit_number _ = none

pub limit_number-pos : (l : Option ℕ) → limit_number (Option.map pos l) ≡ l
limit_number-pos none = refl
limit_number-pos (some n) = refl

abbrev window : DriverOptions → List Value → List Value
window o ds = limited (limit_number o.set_limit) (drop (number o.set_skip) ds)

-- A projection leaves the id alone.
abbrev projected : Value → Value → Value
projected nil_value d = d
projected _ (doc (field k v fs)) = doc (field k v end)
projected _ d = d

abbrev projection : Option Value → Value
projection none = nil_value
projection (some p) = p

abbrev counted : List DriverOptions → List Value → List Value
counted [] ds = ds
counted (o ∷ os) ds = window o ds

abbrev first_of_all : List Value → Option Value
first_of_all [] = none
first_of_all (d ∷ ds) = some d

abbrev pub update_result : ℕ → UpdateResult
update_result n = record {
  matched_count = pos n;
  modified_count = pos n;
  upserted_count = pos 0;
  upserted_id = nil_value;
}

abbrev pub memory : DriverCollection
memory = record {
  Context = Unit {0};
  State = List Value;
  Cursor = List Value;
  SingleResult = Option Value;
  distinct = λ ctx k f s. ((matching s f, none), s);
  count_documents = λ ctx f opts s. ((pos (length (counted opts (matching s f))), none), s);
  find = λ ctx f o s.
      (answer (map (projected (projection o.set_projection)) (window o (matching s f))), s);
  all = λ cursor ctx old s. ((cursor, none), s);
  find_one = λ ctx f o s. (first_of_all (matching s f), s);
  find_one_and_update = λ ctx f u o s. (first_of_all (matching s f), s);
  single_err = λ r. elim r [ none ↦ some (named no_documents) | some d ↦ none ];
  decode = λ r old. elim r [ none ↦ (old, some (named no_documents)) | some d ↦ (d, none) ];
  insert_one = λ ctx d s. (answer d, d ∷ s);
  insert_many = λ ctx ds s. (answer ds, s);
  update_one = λ ctx f u upsert s. (answer (update_result (one_of (matching s f))), s);
  update_many = λ ctx f u upsert s. (answer (update_result (length (matching s f))), s);
  delete_one = λ ctx f s. (answer (pos (one_of (matching s f))), others s f);
  delete_many = λ ctx f s. (answer (pos (length (matching s f))), others s f);
  aggregate = λ ctx p s. (answer s, s);
}

abbrev pub read_of : {A : Type 0} → A → Reply A → A
read_of d (answer a) = a
read_of d (failed e) = d

abbrev pub memory_lawful : IsLawful memory
memory_lawful = record {
  matching = matching;
  sorted = λ v xs. xs;
  length-sorted = λ v xs. refl;
  counts_all = λ ctx f s t n e. (sym (ap (λ x. x.0.0) e), ap (λ x. matching x.1 f) (sym e));
  counts_some = λ ctx f o k l s t n skip limit e.
      sym (ap (λ x. x.0.0) e)
      ∙ ap₂ (λ m j. pos (length (limited m (drop j (matching s f)))))
          (ap limit_number limit ∙ limit_number-pos l) (ap number skip);
  projected = projected;
  finds = λ ctx f o v p k l s t u cursor old xs sort skip limit projects e read.
      sym (ap (λ x. x.0.0) read)
      ∙ sym (ap (λ x. read_of [] x.0) e)
      ∙ ap₂ (λ q ys. map (projected q) ys) (ap projection projects)
          (ap₂ (λ m j. limited m (drop j (matching s f))) (ap limit_number limit) (ap number skip));
}

abbrev pub memory_counting : IsCounting memory
memory_counting = record {
  matching = matching;
  updates_one = λ ctx f u s t r e. ap (λ x. (read_of r x.0).matched_count) (sym e);
  updates_many = λ ctx f u s t r e. ap (λ x. (read_of r x.0).matched_count) (sym e);
  deletes_one = λ ctx f s t n e. ap (λ x. read_of n x.0) (sym e);
  deletes_many = λ ctx f s t n e. ap (λ x. read_of n x.0) (sym e);
}

-- Three documents.
abbrev pub document : ℕ → Value
document n = by_id (int (pos n))

abbrev pub stored : List Value
stored = document 1 ∷ document 2 ∷ document 3 ∷ []
