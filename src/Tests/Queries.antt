-- ===== src/Tests/Queries.antt =====
-- The theorems on errors, options, queries and `Must` at concrete inputs.
use dp_mongodb.Base.{◌≡◌, ◌+◌, refl, true, false, none, some, List, [], ◌∷◌, map, to_ℕ}
use dp_mongodb.Base.Int.{pos}
use dp_mongodb.Errors.{
  Err, named, wrapping, client_disconnected, no_documents, is, is?, name_eq, wrap_mongo_error,
  is_timeout, is_server_err,
}
use dp_mongodb.Errors.Laws.{wrap_mongo_error_sorts}
use dp_mongodb.Bson.{Value, nil_value}
use dp_mongodb.Options.{
  FindOption, offset, limit_to, new_find_options, zero_options, as_driver_find_option,
  as_driver_count_option,
}
use dp_mongodb.Options.Laws.{reading, new_find_options-reading}
use dp_mongodb.Mongo.{answer, failed, DriverCollection}
use dp_mongodb.Collection.Read.{find, count}
use dp_mongodb.Collection.Read as Read
use dp_mongodb.Collection.Cursor.{find_cursor-page}
use dp_mongodb.Collection.Types.{returned}
use dp_mongodb.Collection.Pages.{page, order_of, shown, counted_page}
use dp_mongodb.Collection.Paging.{find-page, count-page}
use dp_mongodb.Collection.Outcomes.{Settles, aggregate_error, methods-Settles}
use dp_mongodb.Collection.Settled.{IsSettled}
use dp_mongodb.Collection.Write as Write
use dp_mongodb.Must
use dp_mongodb.Must.Laws.{Reports, matched, deleted, must-IsSettled, must-Reports}
use dp_mongodb.Tests.Memory.{
  memory, memory_lawful, memory_counting, update_result, document, stored,
}

abbrev lost : Err
lost = wrapping "connection()" (named client_disconnected)

wrapped_lost : wrap_mongo_error (some lost) ≡ some (named client_disconnected)
unfolding wrap_mongo_error is name_eq
wrapped_lost = refl

wrap_mongo_error_sorts_example :
    let w = wrap_mongo_error (some lost) in
    (is? w client_disconnected ≡ is lost client_disconnected)
    × (to_ℕ (is? w client_disconnected)
          + to_ℕ (is? w no_documents)
          + to_ℕ (is_timeout (λ e. false) w)
          + to_ℕ (is_server_err (λ e. false) w)
        ≡ 1)
wrap_mongo_error_sorts_example = wrap_mongo_error_sorts (λ e. false) lost client_disconnected

abbrev second : List FindOption
second = limit_to (pos 0) ∷ offset (pos 1) ∷ limit_to (pos 1) ∷ []

new_find_options-reading_example : new_find_options second ≡ reading zero_options second
new_find_options-reading_example = new_find_options-reading second

find-page_example :
    let found = (find memory tt nil_value [] second stored).0 in
    (found.total ≡ pos 3) × (found.results ≡ document 2 ∷ [])
unfolding new_find_options find wrap_mongo_error page shown as_driver_find_option
find-page_example = find-page memory memory_lawful tt nil_value [] second 1 stored refl refl

count-page_example : (count memory tt nil_value second stored).0.0 ≡ pos 1
unfolding new_find_options count wrap_mongo_error counted_page as_driver_count_option
count-page_example = count-page memory memory_lawful tt nil_value second 1 stored refl refl

-- A driver that cannot count, and that inserts nothing.
abbrev broken : DriverCollection
broken = record memory {
  count_documents = λ ctx f opts s. ((pos 0, some lost), s);
  insert_one = λ ctx d s. (failed lost, s);
}

methods-Settles_example :
    ((Read.distinct broken tt "_id" (document 4) stored).0.1 ≡ wrap_mongo_error none)
    × ((count broken tt (document 4) second stored).0.1 ≡ wrap_mongo_error (some lost))
    × ((Read.find_one broken tt (document 4) nil_value second stored).0.err
        ≡ wrap_mongo_error (some (named no_documents)))
    × ((Read.find_one_and_update broken tt (document 4) nil_value nil_value second stored).0.err
        ≡ wrap_mongo_error (some (named no_documents)))
    × ((Read.aggregate broken tt (document 4) [] stored).0.1 ≡ wrap_mongo_error none)
    × Settles {A = List Value} (answer []) (Read.find_cursor broken tt (document 4) second stored).0
    × Settles {A = Value} (failed lost) (Write.insert_one broken tt (document 4) stored).0
    × Settles {A = List Value} (answer []) (Write.insert_many broken tt [] stored).0
    × Settles
        (answer (update_result 0))
        (Write.update_record broken tt (document 4) nil_value true stored).0
    × Settles
        (answer (update_result 0))
        (Write.update_many broken tt (document 4) nil_value stored).0
    × Settles (answer (pos 0)) (Write.delete_one broken tt (document 4) stored).0
    × Settles (answer (pos 0)) (Write.delete_many broken tt (document 4) stored).0
    × ((e : Err)
        → some lost ≡ some e
        → (find broken tt (document 4) [] second stored).0
          ≡ record { total = pos 0; results = []; err = some e })
unfolding new_find_options as_driver_find_option aggregate_error
methods-Settles_example =
    methods-Settles broken tt stored "_id" (document 4) nil_value nil_value [] second true

find_cursor-page_example :
    let fo = new_find_options second in
    document 2 ∷ []
    ≡ map (memory_lawful.projected fo.projection) (
        page fo.limit false 1
          (memory_lawful.sorted (order_of fo.sort) (memory_lawful.matching stored nil_value)))
unfolding Read.find_cursor new_find_options as_driver_find_option
find_cursor-page_example =
    find_cursor-page memory memory_lawful tt nil_value second 1 1 stored stored stored
      (document 2 ∷ []) [] (document 2 ∷ []) refl refl refl refl

-- A zero limit, which `Find` obeys and a cursor does not.
unlimited_cursor :
    ((find memory tt nil_value [] (limit_to (pos 0) ∷ []) stored).0.results ≡ [])
    × ((Read.find_cursor memory tt nil_value (limit_to (pos 0) ∷ []) stored).0
        ≡ returned (some stored) none)
unfolding find Read.find_cursor new_find_options as_driver_find_option
unlimited_cursor = (refl, refl)

must-IsSettled_example :
    IsSettled (Must.update_one memory tt (document 9) nil_value stored).0
    × IsSettled (Must.update_many memory tt (document 9) nil_value stored).0
    × IsSettled (Must.delete_one memory tt (document 9) stored).0
    × IsSettled (Must.delete_many memory tt (document 9) stored).0
must-IsSettled_example = must-IsSettled memory tt stored (document 9) nil_value

must-Reports_example :
    Reports matched 1 (Must.update_one memory tt nil_value nil_value stored).0
    × Reports matched 3 (Must.update_many memory tt nil_value nil_value stored).0
    × Reports deleted 1 (Must.delete_one memory tt nil_value stored).0
    × Reports deleted 3 (Must.delete_many memory tt nil_value stored).0
must-Reports_example =
    must-Reports memory memory_counting tt nil_value nil_value stored stored stored _ [] _ _ _ _
      refl refl refl refl
