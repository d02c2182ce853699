-- ===== src/TestComponent/Safety/Writes.antt =====
-- The steps that write, and the results that they leave.
use dp_mongodb.Base.{◌≡◌, String, true, false}
use dp_mongodb.Base.Int.{ℤ}
use dp_mongodb.Bson.{str}
use dp_mongodb.Mongo.{DriverCollection}
use dp_mongodb.Collection.Write as Write
use dp_mongodb.Collection.Settled.{
  update_record-IsSettled, update_many-IsSettled, delete_one-IsSettled, delete_many-IsSettled,
}
use dp_mongodb.Must.Laws.{must-IsSettled}
use dp_mongodb.TestComponent.Ready.{Known, is_record}
use dp_mongodb.TestComponent.{Toolkit, Component}
use dp_mongodb.TestComponent.Triples.{Triple}
use dp_mongodb.TestComponent.Has.{Has}
use dp_mongodb.TestComponent.Writes.{
  upsert_record_by_id, upsert_record, update_record_by_id, update_record, update_age,
  delete_record_by_id, delete_record, delete_record_by_name, must_update_id, must_update_record,
  must_delete_record_by_id, must_delete_record, must_delete_records_by_name,
}
use dp_mongodb.TestComponent.Safety.Settled.{
  update_with-Triple, delete_with-Triple, must_update_with-Triple, must_delete_with-Triple, reads,
  reads_record,
}

module _ (T : Toolkit) (C : DriverCollection) (ctx : C.Context) (k : Known) where
  abbrev K : Known → Component T × C.State → Type 0
  K = Has T C.State

  pub upsert_record_by_id-Triple :
      (i : ℤ) (j : String)
      → is_record (T.unmarshal_pointer j) ≡ true
      → Triple (K k) (upsert_record_by_id T C ctx i j) λ _. K (record k { updated = true })
  unfolding upsert_record_by_id Write.upsert_one
  upsert_record_by_id-Triple i j h =
      reads_record T C ctx k _ _ h
        λ r. update_with-Triple T C ctx k _ λ s. update_record-IsSettled C ctx s _ _ true

  pub upsert_record-Triple :
      (i : ℤ) (j : String)
      → is_record (T.unmarshal_pointer j) ≡ true
      → Triple (K k) (upsert_record T C ctx i j) λ _. K (record k { updated = true })
  unfolding upsert_record Write.upsert_one
  upsert_record-Triple i j h =
      reads_record T C ctx k _ _ h
        λ r. update_with-Triple T C ctx k _ λ s. update_record-IsSettled C ctx s _ _ true

  pub update_record_by_id-Triple :
      (i : ℤ) (j : String)
      → is_record (T.unmarshal_pointer j) ≡ true
      → Triple (K k) (update_record_by_id T C ctx i j) λ _. K (record k { updated = true })
  unfolding update_record_by_id Write.update_one
  update_record_by_id-Triple i j h =
      reads_record T C ctx k _ _ h
        λ r. update_with-Triple T C ctx k _ λ s. update_record-IsSettled C ctx s _ _ false

  pub update_record-Triple :
      (i : ℤ) (j : String)
      → is_record (T.unmarshal_pointer j) ≡ true
      → Triple (K k) (update_record T C ctx i j) λ _. K (record k { updated = true })
  unfolding update_record Write.update_one
  update_record-Triple i j h =
      reads_record T C ctx k _ _ h
        λ r. update_with-Triple T C ctx k _ λ s. update_record-IsSettled C ctx s _ _ false

  pub update_age-Triple :
      (n a : String) → Triple (K k) (update_age T C ctx n a) λ _. K (record k { updated = true })
  unfolding update_age
  update_age-Triple n a = update_with-Triple T C ctx k _ λ s. update_many-IsSettled C ctx s _ _

  pub delete_record_by_id-Triple :
      (i : ℤ) → Triple (K k) (delete_record_by_id T C ctx i) λ _. K (record k { deleted = true })
  unfolding delete_record_by_id
  delete_record_by_id-Triple i = delete_with-Triple T C ctx k _ λ s. delete_one-IsSettled C ctx s _

  pub delete_record-Triple :
      (i : ℤ) → Triple (K k) (delete_record T C ctx i) λ _. K (record k { deleted = true })
  unfolding delete_record
  delete_record-Triple i = delete_with-Triple T C ctx k _ λ s. delete_one-IsSettled C ctx s _

  pub delete_record_by_name-Triple :
      (n : String)
      → Triple (K k) (delete_record_by_name T C ctx n) λ _. K (record k { deleted = true })
  unfolding delete_record_by_name
  delete_record_by_name-Triple n =
      delete_with-Triple T C ctx k _ λ s. delete_many-IsSettled C ctx s _

  pub must_update_id-Triple :
      (i : ℤ) (j : String)
      → Triple (K k) (must_update_id T C ctx i j) λ _. K (record k { updated = false })
  unfolding must_update_id
  must_update_id-Triple i j =
      reads T C ctx k _ λ r. must_update_with-Triple T C ctx k _ λ s. (must-IsSettled C ctx s _ _).0

  pub must_update_record-Triple :
      (i : ℤ) (j : String)
      → Triple (K k) (must_update_record T C ctx i j) λ _. K (record k { updated = false })
  unfolding must_update_record
  must_update_record-Triple i j =
      reads T C ctx k _ λ r. must_update_with-Triple T C ctx k _ λ s. (must-IsSettled C ctx s _ _).0

  pub must_delete_record_by_id-Triple :
      (i : ℤ)
      → Triple (K k) (must_delete_record_by_id T C ctx i) λ _. K (record k { deleted = false })
  unfolding must_delete_record_by_id
  must_delete_record_by_id-Triple i =
      must_delete_with-Triple T C ctx k _ λ s. (must-IsSettled C ctx s _ (str "")).2

  pub must_delete_record-Triple :
      (i : ℤ) → Triple (K k) (must_delete_record T C ctx i) λ _. K (record k { deleted = false })
  unfolding must_delete_record
  must_delete_record-Triple i =
      must_delete_with-Triple T C ctx k _ λ s. (must-IsSettled C ctx s _ (str "")).2

  pub must_delete_records_by_name-Triple :
      (n : String)
      → Triple (K k) (must_delete_records_by_name T C ctx n) λ _. K (record k { deleted = false })
  unfolding must_delete_records_by_name
  must_delete_records_by_name-Triple n =
      must_delete_with-Triple T C ctx k _ λ s. (must-IsSettled C ctx s _ (str "")).3
