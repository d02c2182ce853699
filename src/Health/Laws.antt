-- ===== src/Health/Laws.antt =====
-- What the reports of the health check mean.
use dp_mongodb.Base.{
  ◌≡◌, inl, inr, refl, sym, ap, ◌∙◌, some, String, Bool-cases, Option-cases, true, Option, none,
  List, [], ◌∷◌, arith,
}
use mathlib.Core.Path.{subst}
use mathlib.Core.List.{Memᴰ}
use mathlib.Core.List.Memᴰ.{head, tail, cases_cons, cast}
use text.Mathlib.TextEquality.{eq_iff}
use dp_mongodb.Base.Text.{str_eq}
use dp_mongodb.Errors.{Err, error}
use dp_mongodb.Connection.{ConnectedClient, list_collections_for, ping}
use dp_mongodb.Health.{
  Expected, Update, status_ok, status_critical, find, all_found, check_collections, healthcheck,
  checker, new_client_with_collections, report,
}

find-Memᴰ : (xs : List String) (x : String) → find xs x ≡ true → Memᴰ x xs
unfolding find
find-Memᴰ [] x h = absurd cc
find-Memᴰ (y ∷ xs) x h = elim (Bool-cases (str_eq y x)) [
  | inl e ↦ head (sym ((eq_iff y x).0 e))
  | inr e ↦ tail (find-Memᴰ xs x (rw e at h))
]

Memᴰ-find : (xs : List String) (x : String) → Memᴰ x xs → find xs x ≡ true
unfolding find
Memᴰ-find [] x m = elim m [ ]
Memᴰ-find (y ∷ xs) x (head e) = rw ((eq_iff y x).1 (sym e)) refl
Memᴰ-find (y ∷ xs) x (tail m) = ground (arith, Memᴰ-find xs x m)

Contains : List String → List String → Type 0
Contains xs cs = (c : String) → Memᴰ c cs → Memᴰ c xs

all_found-Contains : (xs cs : List String) → all_found xs cs ≡ true → Contains xs cs
unfolding all_found Contains
all_found-Contains xs [] h c m = elim m [ ]
all_found-Contains xs (d ∷ cs) h c m = elim (Bool-cases (find xs d)) [
  | inl e ↦ elim (cases_cons m) [
    | inl same ↦ cast same (find-Memᴰ xs d e)
    | inr later ↦ all_found-Contains xs cs (rw e at h) c later
  ]
  | inr e ↦ absurd (cc (rw e at h))
]

Contains-all_found : (xs cs : List String) → Contains xs cs → all_found xs cs ≡ true
unfolding all_found Contains
Contains-all_found xs [] h = refl
Contains-all_found xs (d ∷ cs) h =
    rw (Memᴰ-find xs d (h d (head refl))) (Contains-all_found xs cs (λ c m. h c (tail m)))

module _ (D : ConnectedClient) (ctx : D.Context) where
  open D use {State}

  -- What the driver answers about a database.
  abbrev pub names : String → State → (List String × Option Err) × State
  names database s = D.list_collection_names database ctx D.named_filter s

  -- Asked about one database after the other, the server answers for each, and names all of its
  -- collections that are expected.
  pub data AllThere : Expected → State → Type 0 where
    nothing_expected : {s : State} → AllThere [] s
    there :
        {database : String} {collections : List String} {rest : Expected} {s : State}
        → (names database s).0.1 ≡ none
        → ((c : String) → Memᴰ c collections → Memᴰ c (names database s).0.0)
        → AllThere rest (names database s).1
        → AllThere ((database, collections) ∷ rest) s

  listing : String → State → (List String × Option Err) × State
  listing database s = list_collections_for D ctx database s

  -- `ListCollectionsFor` hands on the answer, and the error.
  listing-answer :
      (database : String) (s : State)
      → (names database s).0.1 ≡ none
      → listing database s ≡ names database s
  unfolding listing list_collections_for
  listing-answer database s e =
      rw (e, list_collections_for)
        (ap (λ x. (((names database s).0.0, x), (names database s).1)) (sym e))

  listing-error :
      (database : String) (s : State) (x : Err)
      → (names database s).0.1 ≡ some x
      → (listing database s).0.1 ≡ some x
  unfolding listing list_collections_for
  listing-error database s x e = rw (e, list_collections_for) refl

  pub check_collections_sound :
      (expected : Expected) (s : State)
      → (check_collections D ctx expected s).0 ≡ none
      → AllThere expected s
  unfolding check_collections Contains listing
  check_collections_sound [] s h = nothing_expected
  check_collections_sound ((database, cs) ∷ rest) s h = elim (Option-cases (names database s).0.1) [
    | inl e ↦
        let p = listing-answer database s e in
        let ok = ap (λ r. r.0.1) p ∙ e in
        elim (Bool-cases (all_found (listing database s).0.0 cs)) [
          | inl f ↦ there e (all_found-Contains _ cs (subst (λ r. all_found r.0.0 cs ≡ true) p f)) (
              subst (λ r. AllThere rest r.1) p
                (check_collections_sound rest _ (rw (ok, f, check_collections) at h)))
          | inr f ↦ absurd (cc (rw (ok, f, check_collections) at h))
        ]
    | inr (x, e) ↦ absurd (cc (rw (listing-error database s x e, check_collections) at h))
  ]

  pub check_collections_complete :
      (expected : Expected) (s : State)
      → AllThere expected s
      → (check_collections D ctx expected s).0 ≡ none
  unfolding check_collections Contains listing
  check_collections_complete [] s a = refl
  check_collections_complete ((database, cs) ∷ rest) s (there e f a) =
      let p = listing-answer database s e in
      let found : all_found (listing database s).0.0 cs ≡ true =
        subst (λ r. all_found r.0.0 cs ≡ true) (sym p)
          (Contains-all_found (names database s).0.0 cs f) in
      rw (ap (λ r. r.0.1) p ∙ e, found, check_collections)
        (check_collections_complete rest _ (subst (λ r. AllThere rest r.1) (sym p) a))

  -- What the driver answers to a ping that may take 5 s.
  abbrev pub pinged : State → Option Err × State
  pinged s = D.ping (D.with_timeout ctx 5_000_000_000) s

  -- The server answers the ping, and then has all that is expected.
  pub record IsHealthy (expected : Expected) (s : State) : Type 0 where
    pub reached : (pinged s).0 ≡ none
    pub all_there : AllThere expected (pinged s).1

  -- It says that the collections are there only where some are expected.
  abbrev pub message_of : Expected → String
  message_of [] = "mongodb is OK"
  message_of (entry ∷ rest) = "mongodb is OK and all expected collections exist"

  -- The state is updated exactly once: as fine where all is healthy, as critical where it is not.
  pub data Reports (expected : Expected) (s : State) (updates : List Update) : Type 0 where
    healthy :
        IsHealthy expected s
        → updates
          ≡ record { status = status_ok; message = message_of expected; status_code = 0 } ∷ []
        → Reports expected s updates
    unhealthy :
        (e : Err)
        → ¬ IsHealthy expected s
        → updates
          ≡ record { status = status_critical; message = error D.name_text e; status_code = 0 } ∷ []
        → Reports expected s updates

  report-Reports :
      (entry : String × List String) (rest : Expected) (s : State)
      → (pinged s).0 ≡ none
      → Reports (entry ∷ rest) s (report D (check_collections D ctx (entry ∷ rest) (pinged s).1).0)
  report-Reports entry rest s h =
      elim (Option-cases (check_collections D ctx (entry ∷ rest) (pinged s).1).0) [
        | inl e ↦
            rw e (healthy (record { reached = h; all_there = check_collections_sound _ _ e }) refl)
        | inr (x, e) ↦
            rw e (unhealthy x (λ v. cc (e, check_collections_complete _ _ v.all_there)) refl)
      ]

  reached-Reports :
      (expected : Expected) (s : State)
      → (pinged s).0 ≡ none
      → ((checker D (new_client_with_collections D expected) ctx s).0.1 ≡ none)
        × Reports expected s (checker D (new_client_with_collections D expected) ctx s).0.0
  unfolding checker new_client_with_collections healthcheck ping
  reached-Reports [] s h =
      rw (h, checker, ping)
        (refl, healthy (record { reached = h; all_there = nothing_expected }) refl)
  reached-Reports (entry ∷ rest) s h = rw (h, checker, ping) (refl, report-Reports entry rest s h)

  -- `Checker` returns no error and updates the state exactly once: as fine if the server answers
  -- the ping and then, asked about one database after the other, has all collections that are
  -- expected, and as critical otherwise. It says that the collections are there only where some are
  -- expected.
  pub checker-Reports :
      (expected : Expected) (s : State)
      → ((checker D (new_client_with_collections D expected) ctx s).0.1 ≡ none)
        × Reports expected s (checker D (new_client_with_collections D expected) ctx s).0.0
  unfolding checker new_client_with_collections healthcheck ping
  checker-Reports expected s = elim (Option-cases (pinged s).0) [
    | inr (x, h) ↦ rw (h, checker, ping) (refl, unhealthy _ (λ v. cc (h, v.reached)) refl)
    | inl h ↦ reached-Reports expected s h
  ]
