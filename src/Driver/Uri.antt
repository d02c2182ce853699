-- ===== src/Driver/Uri.antt =====
-- The connection string that `GetConnectionURI` builds.
use Prim.Native.Char.{code}
use mathlib.Core.Path.{subst}
use package.text.Mathlib.TextLemmas.{append-nil}
use dp_mongodb.Base.{
  ℕ, ◌≡◌, inl, inr, refl, sym, ap, ◌∙◌, String, ◌<>◌, Bool, true, false, not, ◌≢◌, ◌⊎◌, [], none,
  some, List, ◌∷◌, ◌++◌, arith, ◌==◌, Bool-cases, Option-cases,
}
use dp_mongodb.Base.Text.{all_pass, all_pass-append, all_pass-weaken, is_digit, codes, codes-<>}
use dp_mongodb.Errors.{text}
use dp_mongodb.Driver.{
  MongoDriverConfig, is_empty, scheme, is_host_char, endpoint_regex, strip, trim_prefix,
  credentials, query, get_connection_uri,
}
use dp_mongodb.Driver.Regexp.{matches}
use dp_mongodb.Driver.Address.{
  IsPort, no_port, port, IsAddress, HasAddress, alone, behind_scheme, class_same, endpoint_sound,
  endpoint_complete,
}

-- A text without its prefix.
strip-codes :
    (p s : String) (t : List ℕ)
    → codes s ≡ codes p ++ t
    → (r : String) × (strip p s ≡ some r) × (codes r ≡ t)
unfolding strip
strip-codes String.[] s t e = (s, refl, e)
strip-codes (String.◌∷◌ c p) String.[] t e = absurd cc
strip-codes (String.◌∷◌ c p) (String.◌∷◌ d s) t e =
    let same : code c ≡ code d = cc in
    let (r, run, q) = strip-codes p s t cc in
    let test : code c == code d ≡ true = ground (arith, same) in (r, rw test run, q)

strip-some : (p s r : String) → strip p s ≡ some r → codes s ≡ codes p ++ codes r
unfolding strip
strip-some String.[] s r e = ap codes cc
strip-some (String.◌∷◌ c p) String.[] r e = absurd cc
strip-some (String.◌∷◌ c p) (String.◌∷◌ d s) r e = elim (Bool-cases (code c == code d)) [
  | inl h ↦ rw (← class_same (code c) (code d) h) (ap (◌∷◌ (code c)) (strip-some p s r (rw h at e)))
  | inr h ↦ absurd (cc (rw h at e))
]

-- A slash is in no address.
abbrev no_slash : ℕ → Bool
no_slash c = not (c == b'/')

IsPort-no_slash : {t : List ℕ} → IsPort t → all_pass no_slash t ≡ true
IsPort-no_slash (no_port e) = rw e refl
IsPort-no_slash (port ds e n h) =
    rw e (all_pass-weaken is_digit no_slash (λ c k. ground arith) ds h)

IsAddress-no_slash : {t : List ℕ} → IsAddress t → all_pass no_slash t ≡ true
IsAddress-no_slash i = rw i.parts (
    all_pass-append no_slash i.host i.rest
      (all_pass-weaken is_host_char no_slash (λ c k. ground arith) i.host i.host_chars)
      (IsPort-no_slash i.a_port))

trim_prefix-codes :
    (s : String) (address : List ℕ)
    → IsAddress address
    → HasAddress (codes s) address
    → codes (trim_prefix s scheme) ≡ address
unfolding trim_prefix
trim_prefix-codes s address i (behind_scheme e) =
    let (r, run, q) = strip-codes scheme s address e in rw run q
trim_prefix-codes s address i (alone e) = elim (Option-cases (strip scheme s)) [
  | inl n ↦ rw n e
  | inr (r, run) ↦
      let split : address ≡ codes scheme ++ codes r = sym e ∙ strip-some scheme s r run in
      let slashes : all_pass no_slash (codes scheme ++ codes r) ≡ true =
        subst (λ x. all_pass no_slash x ≡ true) split (IsAddress-no_slash i) in
      absurd (cc slashes)
]

-- The credentials, with the `@` behind them: a name and a password, if there are both.
pub data IsCredentials (m : MongoDriverConfig) (cs : List ℕ) : Type 0 where
  both :
      m.username ≢ ""
      → m.password ≢ ""
      → cs ≡ codes m.username ++ (b':' ∷ (codes m.password ++ (b'@' ∷ [])))
      → IsCredentials m cs
  missing : (m.username ≡ "") ⊎ (m.password ≡ "") → cs ≡ [] → IsCredentials m cs

-- The query: the replica set, and a direct connection if it is asked for or if there is no replica
-- set.
pub data IsQuery (m : MongoDriverConfig) (cs : List ℕ) : Type 0 where
  replicas :
      m.replica_set ≢ ""
      → m.direct_connection ≡ false
      → cs ≡ codes "?replicaSet=" ++ codes m.replica_set
      → IsQuery m cs
  direct_replicas :
      m.replica_set ≢ ""
      → m.direct_connection ≡ true
      → cs ≡ codes "?replicaSet=" ++ (codes m.replica_set ++ codes "&directConnection=true")
      → IsQuery m cs
  direct : m.replica_set ≡ "" → cs ≡ codes "?directConnection=true" → IsQuery m cs

-- The connection string for an address.
pub record IsUri (m : MongoDriverConfig) (address uri : List ℕ) : Type 0 where
  pub with_credentials : List ℕ
  pub with_query : List ℕ
  pub a_login : IsCredentials m with_credentials
  pub a_query : IsQuery m with_query
  pub parts :
      uri
      ≡ codes "mongodb://"
        ++ (with_credentials ++ (address ++ (codes "/" ++ (codes m.database ++ with_query))))

is_empty-eq : (s : String) → is_empty s ≡ true → s ≡ ""
is_empty-eq String.[] h = refl
is_empty-eq (String.◌∷◌ c s) h = cc

not_empty : (s : String) → is_empty s ≡ false → s ≢ ""
not_empty s h e = cc (ap is_empty (sym e) ∙ h)

credentials-IsCredentials : (m : MongoDriverConfig) → IsCredentials m (codes (credentials m))
credentials-IsCredentials m = elim (Bool-cases (is_empty m.password)) [
  | inl e ↦ rw e (missing (inr (is_empty-eq m.password e)) refl)
  | inr e ↦ elim (Bool-cases (is_empty m.username)) [
    | inl f ↦ rw (e, f) (missing (inl (is_empty-eq m.username f)) refl)
    | inr f ↦
        rw (e, f)
          (both (not_empty m.username f) (not_empty m.password e) (
            codes-<> m.username (":" <> (m.password <> "@"))
            ∙ ap (λ x. codes m.username ++ x)
                (codes-<> ":" (m.password <> "@") ∙ ap (◌∷◌ b':') (codes-<> m.password "@"))))
  ]
]

query-IsQuery : (m : MongoDriverConfig) → IsQuery m (codes (query m))
query-IsQuery m = elim (Bool-cases (is_empty m.replica_set)) [
  | inl e ↦ rw e (direct (is_empty-eq m.replica_set e) refl)
  | inr e ↦ elim (Bool-cases m.direct_connection) [
    | inl f ↦ direct_replicas (not_empty m.replica_set e) f (
        rw (e, f)
          (codes-<> "?replicaSet=" (m.replica_set <> "&directConnection=true")
            ∙ ap (λ x. codes "?replicaSet=" ++ x)
                (codes-<> m.replica_set "&directConnection=true")))
    | inr f ↦ replicas (not_empty m.replica_set e) f (
        rw (e, f)
          (codes-<> "?replicaSet=" (m.replica_set <> "")
            ∙ ap (λ x. codes "?replicaSet=" ++ codes x) (append-nil m.replica_set)))
  ]
]

printed-IsUri :
    (m : MongoDriverConfig) (e : String) (address : List ℕ)
    → codes e ≡ address
    → IsUri m address (codes (scheme <> (credentials m <> (e <> ("/" <> (m.database <> query m))))))
printed-IsUri m e address h = record {
  with_credentials = codes (credentials m);
  with_query = codes (query m);
  a_login = credentials-IsCredentials m;
  a_query = query-IsQuery m;
  parts =
      rw
        (
          codes-<> scheme (credentials m <> (e <> ("/" <> (m.database <> query m)))),
          codes-<> (credentials m) (e <> ("/" <> (m.database <> query m))),
          codes-<> e ("/" <> (m.database <> query m)),
          codes-<> "/" (m.database <> query m),
          codes-<> m.database (query m),
          h,
        )
        refl;
}

accepts :
    (m : MongoDriverConfig) (address : List ℕ)
    → IsAddress address
    → HasAddress (codes m.cluster_endpoint) address
    → (get_connection_uri m).1 ≡ none × IsUri m address (codes (get_connection_uri m).0)
unfolding get_connection_uri
accepts m address i has = rw (endpoint_complete (codes m.cluster_endpoint) address i has) (
  refl,
  printed-IsUri m (trim_prefix m.cluster_endpoint scheme) address
      (trim_prefix-codes m.cluster_endpoint address i has),
)

-- What `GetConnectionURI` returns.
pub data Reading (m : MongoDriverConfig) : Type 0 where
  accepted :
      (address : List ℕ)
      → IsAddress address
      → HasAddress (codes m.cluster_endpoint) address
      → (get_connection_uri m).1 ≡ none
      → IsUri m address (codes (get_connection_uri m).0)
      → Reading m
  refused :
      ((address : List ℕ) → IsAddress address → ¬ HasAddress (codes m.cluster_endpoint) address)
      → get_connection_uri m ≡ ("", some (text ("invalid mongodb address: " <> m.cluster_endpoint)))
      → Reading m

-- An endpoint that is an address (a host name without colon and slash, and a colon and digits or
-- nothing), with the scheme before it or without, is accepted, and the connection string has the
-- scheme once, the user name and the password if there are both, the address, the database and the
-- query (the replica set if there is one, and a direct connection if it is asked for or if there is
-- none), in this order. Any other endpoint is refused, with an error that shows it and without a
-- connection string.
pub get_connection_uri-Reading : (m : MongoDriverConfig) → Reading m
unfolding get_connection_uri
get_connection_uri-Reading m =
    elim (Bool-cases (matches endpoint_regex (codes m.cluster_endpoint))) [
      | inl h ↦
          let (address, i, has) = endpoint_sound (codes m.cluster_endpoint) h in
          let (fine, built) = accepts m address i has in accepted address i has fine built
      | inr h ↦
          refused
            (λ address i has. cc (h, endpoint_complete (codes m.cluster_endpoint) address i has))
            (rw h refl)
    ]

-- Where there is no error the endpoint is an address.
pub builds :
    (m : MongoDriverConfig)
    → (get_connection_uri m).1 ≡ none
    → (address : List ℕ) × IsAddress address
      × HasAddress (codes m.cluster_endpoint) address
      × IsUri m address (codes (get_connection_uri m).0)
builds m e = elim (get_connection_uri-Reading m) [
  | accepted address i has fine built ↦ (address, i, has, built)
  | refused no_address h ↦ absurd (cc (h, e))
]
