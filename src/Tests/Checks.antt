-- ===== src/Tests/Checks.antt =====
-- The health check at a server with two databases, and the theorems there.
use mathlib.Core.List.{Memᴰ}
use mathlib.Core.List.Memᴰ.{head, tail, cases_cons, cast}
use dp_mongodb.Base.{
  ℕ, ◌≡◌, inl, inr, refl, String, Option, none, some, List, [], ◌∷◌, if◌then◌else◌,
}
use dp_mongodb.Base.Text.{str_eq}
use dp_mongodb.Errors.{Err, text, error}
use dp_mongodb.Bson.{nil_value}
use dp_mongodb.Connection.{ConnectedClient, ping, list_collections_for}
use dp_mongodb.Health.{
  Expected, check_collections, checker, new_client_with_collections, new_client, status_ok,
  status_critical,
}
use dp_mongodb.Health.Laws.{Reports, checker-Reports}
use dp_mongodb.Health.Order.{IsSteady, any_order}

abbrev names : String → List String × Option Err
names database = if str_eq database "a" then ("x" ∷ "y" ∷ [], none) else ([], some (text "down"))

-- The state counts the calls.
abbrev client : ConnectedClient
client = record {
  Context = ℕ;
  State = ℕ;
  name_text = (λ n. "error");
  with_timeout = (λ ctx t. t);
  ping = (λ ctx s. (none, ℕ.suc s));
  named_filter = nil_value;
  list_collection_names = (λ database ctx filter s. (names database, ℕ.suc s));
  drop = (λ database ctx s. (none, s));
  run_command = (λ database ctx command s. (none, s));
}

abbrev expected : Expected
expected = ("a", "x" ∷ []) ∷ ("a", "y" ∷ []) ∷ []

abbrev swapped : Expected
swapped = ("a", "y" ∷ []) ∷ ("a", "x" ∷ []) ∷ []

well_run : checker client (new_client_with_collections client expected) 0 0 ≡ (
  (
    record {
      status = status_ok;
      message = "mongodb is OK and all expected collections exist";
      status_code = 0;
    }
        ∷ [],
    none,
  ),
  3,
)
unfolding checker new_client_with_collections ping list_collections_for
well_run = refl

ill_run :
    checker client (new_client_with_collections client (("a", "z" ∷ []) ∷ [])) 0 0
    ≡ ((record { status = status_critical; message = "error"; status_code = 0 } ∷ [], none), 2)
unfolding checker new_client_with_collections ping list_collections_for error
ill_run = refl

-- A client without collections asks for none.
new_client_run :
    checker client (new_client client) 0 0
    ≡ ((record { status = status_ok; message = "mongodb is OK"; status_code = 0 } ∷ [], none), 1)
unfolding checker new_client ping
new_client_run = refl

checker-Reports_example :
    ((checker client (new_client_with_collections client expected) 0 0).0.1 ≡ none)
    × Reports client 0 expected 0
        (checker client (new_client_with_collections client expected) 0 0).0.0
checker-Reports_example = checker-Reports client 0 expected 0

steady : IsSteady client 0
steady = record { answers = names; steady = (λ database s. refl) }

all_found_run : (check_collections client 0 expected 0).0 ≡ none
unfolding check_collections list_collections_for
all_found_run = refl

swapped_within : (x : String × List String) → Memᴰ x swapped → Memᴰ x expected
swapped_within x m = elim (cases_cons m) [
  | inl e ↦ cast e (tail (head refl))
  | inr n ↦ elim (cases_cons n) [ inl e ↦ cast e (head refl) | inr k ↦ elim k [ ] ]
]

swapped_run : (check_collections client 0 swapped 5).0 ≡ none
swapped_run = any_order client 0 steady expected swapped 0 5 swapped_within all_found_run
