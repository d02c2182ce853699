-- ===== src/Driver/Tls.antt =====
-- When a connection verifies the server's certificate.
use dp_mongodb.Base.{◌≡◌, String, Bool, true, false, Option, none, some, arith}
use dp_mongodb.Driver.{TlsConnectionConfig, TlsConfig, get_tls_config, is_empty}

module _ {Pool : Type 0} (append_certs_from_pem : String → Pool × Bool) where
  -- The configuration verifies the server's certificate, against the certificates of the given chain,
  -- which is not empty and could be read, and for the real host name that is given.
  pub record Verifies (m : TlsConnectionConfig) (c : TlsConfig Pool) : Type 0 where
    pub verified : c.insecure_skip_verify ≡ false
    pub pool : c.root_cas ≡ some (append_certs_from_pem m.ca_cert_chain).0
    pub parsed : (append_certs_from_pem m.ca_cert_chain).1 ≡ true
    pub some_chain : is_empty m.ca_cert_chain ≡ false
    pub host_name : c.server_name ≡ m.real_hostname_for_ssh

  verifies :
      (m : TlsConnectionConfig) {result : Option (TlsConfig Pool)}
      → m.is_ssl ≡ true
      → m.verify_cert ≡ true
      → get_tls_config append_certs_from_pem m ≡ (result, none)
      → (c : TlsConfig Pool) × (result ≡ some c)
        × (c.insecure_skip_verify ≡ false)
        × (c.root_cas ≡ some (append_certs_from_pem m.ca_cert_chain).0)
        × ((append_certs_from_pem m.ca_cert_chain).1 ≡ true)
        × (is_empty m.ca_cert_chain ≡ false)
        × (c.server_name ≡ m.real_hostname_for_ssh)
  unfolding get_tls_config
  verifies m ssl verify e = ground arith

  pub get_tls_config-Verifies :
      (m : TlsConnectionConfig)
      → m.is_ssl ≡ true
      → m.verify_cert ≡ true
      → (get_tls_config append_certs_from_pem m).1 ≡ none
      → (c : TlsConfig Pool) × ((get_tls_config append_certs_from_pem m).0 ≡ some c) × Verifies m c
  get_tls_config-Verifies m ssl verify e =
      let (c, h, verified, pool, parsed, some_chain, host_name) = verifies m ssl verify (cc e) in
      (
        c,
        h,
        record {
          verified = verified;
          pool = pool;
          parsed = parsed;
          some_chain = some_chain;
          host_name = host_name;
        },
      )
