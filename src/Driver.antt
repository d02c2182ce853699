-- ===== src/Driver.antt =====
-- mongodb/driver.go: the configuration of a connection, and the connection string.
pub mod Regexp
pub mod Address
pub mod Uri
pub mod Tls
pub mod Open
use Prim.Native.Char.{code}
use dp_mongodb.Base.{
  ℕ, String, ◌<>◌, Bool, true, false, not, ◌&&◌, ◌||◌, Option, none, some, List, [], ◌∷◌, ◌==◌, leb,
  if◌then◌else◌,
}
use dp_mongodb.Base.Int.{ℤ}
use dp_mongodb.Base.Text.{is_digit, str_eq, codes}
use dp_mongodb.Errors.{Err, named, text, no_ca_cert_chain, invalid_ca_cert_chain}
use dp_mongodb.Driver.Regexp.{Regex, empty, class, seq, opt, plus, matches}

pub record TlsConnectionConfig : Type 0 where
  pub is_ssl : Bool
  pub verify_cert : Bool
  pub ca_cert_chain : String
  pub real_hostname_for_ssh : String

pub record MongoDriverConfig : Type 0 where
  pub username : String
  pub password : String
  pub cluster_endpoint : String
  pub database : String
  -- from well known names to actual names
  pub collections : List (String × String)
  pub replica_set : String
  pub direct_connection : Bool
  pub is_strong_read_concern_enabled : Bool
  pub is_write_concern_majority_enabled : Bool
  pub connect_timeout : ℤ
  pub query_timeout : ℤ
  pub tls : TlsConnectionConfig

-- `m[k]` for a Go map from strings to strings: a missing key gives the empty string.
unfoldable pub lookup : List (String × String) → String → String
lookup [] k = ""
lookup ((j, v) ∷ m) k = if str_eq j k then v else lookup m k

unfoldable pub actual_collection_name : MongoDriverConfig → String → String
unfolding lookup
actual_collection_name m well_known_name = lookup m.collections well_known_name

abbrev pub is_empty : String → Bool
is_empty String.[] = true
is_empty (String.◌∷◌ c s) = false

-- The expression for one text.
abbrev pub literal : List ℕ → Regex
literal [] = empty
literal (c ∷ cs) = seq (class (λ d. c == d)) (literal cs)

abbrev pub scheme : String
scheme = "mongodb://"

-- `[^:/]`
abbrev pub is_host_char : ℕ → Bool
is_host_char c = not (c == b':') && not (c == b'/')

-- `^(mongodb://)?[^:/]+(:\d+)?$`
abbrev pub endpoint_regex : Regex
endpoint_regex =
    seq (opt (literal (codes scheme)))
      (seq (plus (class is_host_char)) (opt (seq (class (λ c. b':' == c)) (plus (class is_digit)))))

-- What is left of a text after a prefix that it has.
unfoldable pub strip : String → String → Option String
strip String.[] s = some s
strip (String.◌∷◌ c p) String.[] = none
strip (String.◌∷◌ c p) (String.◌∷◌ d s) = if code c == code d then strip p s else none

-- `strings.TrimPrefix(s, prefix)`
unfoldable pub trim_prefix : String → String → String
unfolding strip
trim_prefix s prefix = elim (strip prefix s) [ none ↦ s | some rest ↦ rest ]

-- The credentials of the two templates, with the `@` behind them.
abbrev pub credentials : MongoDriverConfig → String
credentials m =
    if not (is_empty m.password) && not (is_empty m.username)
    then m.username <> (":" <> (m.password <> "@"))
    else ""

-- What stands behind the name of the database.
abbrev pub query : MongoDriverConfig → String
query m =
    if not (is_empty m.replica_set)
    then "?replicaSet="
      <> (m.replica_set <> (if m.direct_connection then "&directConnection=true" else ""))
    else "?directConnection=true"

-- `GetConnectionURI`. The expression is a constant that compiles, so `regexp.MatchString` returns no
-- error.
unfoldable pub get_connection_uri : MongoDriverConfig → String × Option Err
unfolding matches trim_prefix
get_connection_uri m =
    if not (matches endpoint_regex (codes m.cluster_endpoint))
    then ("", some (text ("invalid mongodb address: " <> m.cluster_endpoint)))
    else let endpoint = trim_prefix m.cluster_endpoint scheme in
      (scheme <> (credentials m <> (endpoint <> ("/" <> (m.database <> query m)))), none)

-- `tls.Config`, as far as the code sets it. The pool of certificates is a type of crypto/x509.
pub record TlsConfig (Pool : Type 0) : Type 0 where
  pub insecure_skip_verify : Bool
  pub root_cas : Option Pool
  pub server_name : String

-- `AppendCertsFromPEM` on an empty pool, with its Boolean result, is a parameter.
module _ {Pool : Type 0} (append_certs_from_pem : String → Pool × Bool) where
  unfoldable pub get_tls_config : TlsConnectionConfig → Option (TlsConfig Pool) × Option Err
  get_tls_config m =
      let (pool, parsed) = append_certs_from_pem m.ca_cert_chain in
      if not m.is_ssl
      then (none, none)
      else if not m.verify_cert
      then (some (record { insecure_skip_verify = true; root_cas = none; server_name = "" }), none)
      else if is_empty m.ca_cert_chain
      then (none, some (named no_ca_cert_chain))
      else if not parsed
      then (none, some (named invalid_ca_cert_chain))
      else (
        some (record {
          insecure_skip_verify = false;
          root_cas = some pool;
          server_name =
              if not (is_empty m.real_hostname_for_ssh) then m.real_hostname_for_ssh else "";
        }),
        none,
      )
