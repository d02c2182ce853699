-- ===== src/Driver/Open/Laws.antt =====
-- What a connection that `Open` returns stands for.
use dp_mongodb.Base.{
  ℕ, ◌≤◌, ltb, ◌≡◌, inl, inr, refl, List, Bool-cases, Option-cases, true, false, Option, none, some,
  arith,
}
use mathlib.Core.Path.{subst}
use dp_mongodb.Base.Text.{codes}
use dp_mongodb.Errors.{Err}
use dp_mongodb.Driver.{MongoDriverConfig, TlsConfig, get_tls_config, get_connection_uri}
use dp_mongodb.Driver.Address.{IsAddress, HasAddress}
use dp_mongodb.Driver.Uri.{IsUri, builds}
use dp_mongodb.Driver.Tls.{Verifies, get_tls_config-Verifies}
use dp_mongodb.Connection.Handles.{MongoConnection}
use dp_mongodb.Driver.Open.{
  ClientDriver, ClientOptions, IsOpened, Made, make_client-Made, make_client-IsOpened,
  client_options, open_,
}

module _ (D : ClientDriver) where
  open D use {State, Pool}

  -- In every case `Open` returns either a connection and a nil error, or a nil connection and an
  -- error.
  open_-IsOpened : (m : MongoDriverConfig) (s : State) → IsOpened D (open_ D m s).0
  unfolding open_
  open_-IsOpened m s = elim (Bool-cases (ltb D.int_size 64)) [
    | inl narrow ↦ rw narrow refl
    | inr wide ↦ elim (Option-cases (get_tls_config D.append_certs_from_pem m.tls).1) [
      | inr (e, h) ↦ rw (wide, h) refl
      | inl h ↦ elim (Option-cases (get_connection_uri m).1) [
        | inr (e, k) ↦ rw (wide, h, k) refl
        | inl k ↦ rw (wide, h, k) (make_client-IsOpened D m _ s)
      ]
    ]
  ]

  IsOpened-no_error :
      (c : MongoConnection D.Client) (err : Option Err) → IsOpened D (some c, err) → err ≡ none
  IsOpened-no_error c err h = ground (arith, h)

  client_options-Made :
      (m : MongoDriverConfig) (s t : State) (c : MongoConnection D.Client) (err : Option Err)
      → open_ D m s ≡ ((some c, err), t)
      → let tls = get_tls_config D.append_certs_from_pem m.tls in
        let uri = get_connection_uri m in
        (ltb D.int_size 64 ≡ false)
        × (tls.1 ≡ none)
        × (uri.1 ≡ none)
        × (err ≡ none)
        × Made D m (client_options D m uri.0 tls.0) s c t
  unfolding open_
  client_options-Made m s t c err e = elim (Bool-cases (ltb D.int_size 64)) [
    | inl narrow ↦ absurd (cc (rw narrow at e))
    | inr wide ↦ elim (Option-cases (get_tls_config D.append_certs_from_pem m.tls).1) [
      | inr (e', h) ↦ absurd (cc (rw (wide, h) at e))
      | inl h ↦ elim (Option-cases (get_connection_uri m).1) [
        | inr (e', k) ↦ absurd (cc (rw (wide, h, k) at e))
        | inl k ↦ (
          wide,
          h,
          k,
          IsOpened-no_error c err (subst (λ x. IsOpened D x.0) e (open_-IsOpened m s)),
          make_client-Made D m _ s t c err (rw (wide, h, k) at e),
        )
      ]
    ]
  ]

  -- If `Open` returns a connection, its error is nil, an int has 64 bits at least, and the driver
  -- made the client, connected it and had an answer to a ping, one after the other and within the
  -- configured timeout. The options were never to retry writes, and a connection string for the
  -- address of the endpoint.
  pub open_-Made :
      (m : MongoDriverConfig) (s t : State) (c : MongoConnection D.Client) (err : Option Err)
      → open_ D m s ≡ ((some c, err), t)
      → (err ≡ none)
        × (64 ≤ D.int_size)
        × (options : ClientOptions Pool) × Made D m options s c t
        × (options.retry_writes ≡ false)
        × (address : List ℕ) × IsAddress address
        × HasAddress (codes m.cluster_endpoint) address
        × IsUri m address (codes options.uri)
  unfolding client_options
  open_-Made m s t c err e =
      let (wide, tls, uri, no_error, made) = client_options-Made m s t c err e in
      let (address, i, has, built) = builds m uri in
      (no_error, ground arith, _, made, refl, address, i, has, built)

  -- If TLS and the verification of the certificate are asked for and `Open` returns a connection,
  -- its client was made with a configuration that verifies the server's certificate, against the
  -- certificates of the given chain, which is not empty and could be read, and for the real host
  -- name that is given.
  pub open_-Verifies :
      (m : MongoDriverConfig) (s t : State) (c : MongoConnection D.Client) (err : Option Err)
      → m.tls.is_ssl ≡ true
      → m.tls.verify_cert ≡ true
      → open_ D m s ≡ ((some c, err), t)
      → (options : ClientOptions Pool) × Made D m options s c t
        × (config : TlsConfig Pool) × (options.tls_config ≡ some config)
        × Verifies D.append_certs_from_pem m.tls config
  unfolding client_options
  open_-Verifies m s t c err ssl verify e =
      let (wide, tls, uri, no_error, made) = client_options-Made m s t c err e in
      let (config, h, v) = get_tls_config-Verifies D.append_certs_from_pem m.tls ssl verify tls in
      (_, made, config, h, v)
