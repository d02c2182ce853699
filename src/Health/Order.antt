-- ===== src/Health/Order.antt =====
-- A Go map has no order: what the check of the collections finds does not depend on one.
use dp_mongodb.Base.{◌≡◌, refl, sym, ap, ◌∙◌, String, Option, none, List, [], ◌∷◌}
use mathlib.Core.List.{Memᴰ}
use mathlib.Core.List.Memᴰ.{head, tail}
use mathlib.Core.Path.{subst}
use dp_mongodb.Errors.{Err}
use dp_mongodb.Connection.{ConnectedClient}
use dp_mongodb.Health.{Expected, check_collections}
use dp_mongodb.Health.Laws.{
  AllThere, nothing_expected, there, check_collections_sound, check_collections_complete,
}

module _ (D : ConnectedClient) (ctx : D.Context) where
  open D use {State}

  -- While the check runs, the server gives the same answer about a database whenever it is asked.
  pub record IsSteady : Type 0 where
    pub answers : String → List String × Option Err
    pub steady :
        (database : String) (s : State)
        → (D.list_collection_names database ctx D.named_filter s).0 ≡ answers database

  -- The answer about the entry's database names all of the entry's collections.
  Passes : IsSteady → String × List String → Type 0
  Passes h x = ((h.answers x.0).1 ≡ none) × ((c : String) → Memᴰ c x.1 → Memᴰ c (h.answers x.0).0)

  AllThere-Passes :
      (h : IsSteady) (expected : Expected) (s : State) (x : String × List String)
      → AllThere D ctx expected s
      → Memᴰ x expected
      → Passes h x
  unfolding Passes
  AllThere-Passes h [] s x a m = elim m [ ]
  AllThere-Passes h ((database, cs) ∷ rest) s x (there e f a) (head same) =
      let answer = h.steady database s in
      subst (Passes h) (sym same)
        (ap (λ r. r.1) (sym answer) ∙ e, (λ c m. subst (λ r. Memᴰ c r.0) answer (f c m)))
  AllThere-Passes h ((database, cs) ∷ rest) s x (there e f a) (tail m) =
      AllThere-Passes h rest _ x a m

  Passes-AllThere :
      (h : IsSteady) (expected : Expected) (s : State)
      → ((x : String × List String) → Memᴰ x expected → Passes h x)
      → AllThere D ctx expected s
  unfolding Passes
  Passes-AllThere h [] s p = nothing_expected
  Passes-AllThere h ((database, cs) ∷ rest) s p =
      let answer = h.steady database s in
      let (ok, f) = p (database, cs) (head refl) in
      there (ap (λ r. r.1) answer ∙ ok) (λ c m. subst (λ r. Memᴰ c r.0) (sym answer) (f c m))
        (Passes-AllThere h rest _ (λ x m. p x (tail m)))

  -- Where the server gives the same answer about a database whenever it is asked, a check that
  -- finds all collections goes on to do so if entries of the map are left out, repeated or met in
  -- another order.
  pub any_order :
      (h : IsSteady) (expected other : Expected) (s t : State)
      → ((x : String × List String) → Memᴰ x other → Memᴰ x expected)
      → (check_collections D ctx expected s).0 ≡ none
      → (check_collections D ctx other t).0 ≡ none
  any_order h expected other s t within e =
      let a = check_collections_sound D ctx expected s e in
      check_collections_complete D ctx other t
        (Passes-AllThere h other t (λ x m. AllThere-Passes h expected s x a (within x m)))
