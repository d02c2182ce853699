-- ===== src/Errors/Laws.antt =====
-- What `wrapMongoError` keeps of an error, and how the predicates tell its results apart.
use dp_mongodb.Base.{
  ◌≡◌, refl, sym, ◌∙◌, ◌+◌, Bool, true, Option, none, some, arith, to_ℕ, Bool-cases, inl, inr,
}
use dp_mongodb.Errors.{
  Name, client_disconnected, no_documents, Err, named, text, foreign, wrapping, library,
  Name-discrete, name_eq, is, is?, wrap_mongo_error, is_timeout, is_server_err,
}

pub name_eq→eq : (m n : Name) → name_eq m n ≡ true → m ≡ n
unfolding name_eq
name_eq→eq m n p = ground arith

pub name_eq_refl : (n : Name) → name_eq n n ≡ true
unfolding name_eq
name_eq_refl n = ground arith

-- A chain of causes ends in one variable at most.
pub is_unique : (e : Err) (m n : Name) → is e m ≡ true → is e n ≡ true → m ≡ n
unfolding is
is_unique (named k) m n p q = sym (name_eq→eq k m p) ∙ name_eq→eq k n q
is_unique (text t) m n p q = ground arith
is_unique (foreign t) m n p q = ground arith
is_unique (wrapping t e) m n p q = is_unique e m n p q
is_unique (library e) m n p q = is_unique e m n p q

-- The variable that an error is, where it is one.
is_named : (e : Err) (m n : Name) → is e m ≡ true → is e n ≡ name_eq m n
unfolding is
is_named e m n p = ground (arith, is_unique e m n, name_eq→eq m n, name_eq_refl n)

is-wrap_mongo_error : (e : Option Err) (n : Name) → is? (wrap_mongo_error e) n ≡ is? e n
unfolding wrap_mongo_error is
is-wrap_mongo_error none n = refl
is-wrap_mongo_error (some e) n = elim (Bool-cases (is e client_disconnected)) [
  | inl p ↦ rw p (sym (is_named e client_disconnected n p))
  | inr p ↦ elim (Bool-cases (is e no_documents)) [
    | inl q ↦ rw (p, q) (sym (is_named e no_documents n q))
    | inr q ↦ rw (p, q)
  ]
]

-- `wrapMongoError` of an error changes nothing that `errors.Is` can see, for any error variable: what
-- a caller tests for in the driver's error, it finds in the wrapped one. The wrapped error is of
-- exactly one of four kinds: the disconnection, the missing document, a timeout or a server error.
pub wrap_mongo_error_sorts :
    (driver_is_timeout : Err → Bool) (e : Err) (n : Name)
    → let w = wrap_mongo_error (some e) in
      (is? w n ≡ is e n)
      × (to_ℕ (is? w client_disconnected)
            + to_ℕ (is? w no_documents)
            + to_ℕ (is_timeout driver_is_timeout w)
            + to_ℕ (is_server_err driver_is_timeout w)
          ≡ 1)
unfolding wrap_mongo_error is is_timeout is_server_err name_eq Name-discrete
wrap_mongo_error_sorts driver_is_timeout e n = (is-wrap_mongo_error (some e) n, ground arith)
