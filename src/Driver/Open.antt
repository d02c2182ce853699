-- ===== src/Driver/Open.antt =====
-- `Open` of mongodb/driver.go, over the part of the driver that makes a client.
pub mod Laws
pub mod Counts
use dp_mongodb.Base.{
  ℕ, ltb, ◌≡◌, ◌≢◌, ◌⊎◌, inl, inr, refl, String, ◌<>◌, Bool, true, false, not, Option, none, some,
  arith, if◌then◌else◌,
}
use dp_mongodb.Base.Int.{ℤ}
use dp_mongodb.Errors.{Err, Name, text, error}
use dp_mongodb.Connection.Handles.{MongoConnection, new_mongo_connection}
use dp_mongodb.Driver.{MongoDriverConfig, TlsConfig, get_tls_config, get_connection_uri}

pub data ReadPreference : Type 0 where
  primary : ReadPreference
  secondary_preferred : ReadPreference

pub data ReadConcern : Type 0 where
  majority_read : ReadConcern

pub data WriteConcern : Type 0 where
  majority_write : WriteConcern
  one_write : WriteConcern

-- The setters that `Open` calls on `options.Client()`, and their arguments.
pub record ClientOptions (Pool : Type 0) : Type 0 where
  pub uri : String
  pub tls_config : Option (TlsConfig Pool)
  pub retry_writes : Bool
  pub read_preference : ReadPreference
  -- `none` where `SetReadConcern` is not called
  pub read_concern : Option ReadConcern
  pub write_concern : WriteConcern

-- The platform, the driver and crypto/x509. The one context of `Open`, which `connect` and `ping`
-- share, is the timeout that it was made with.
pub record ClientDriver : Type 1 where
  pub State : Type 0
  pub Client : Type 0
  pub Pool : Type 0
  -- `strconv.IntSize`
  pub int_size : ℕ
  pub append_certs_from_pem : String → Pool × Bool
  pub name_text : Name → String
  -- `mongo.NewClient`: the client or an error
  pub new_client : ClientOptions Pool → State → (Client ⊎ Err) × State
  pub connect : Client → ℤ → State → Option Err × State
  pub ping : Client → ℤ → State → Option Err × State

abbrev int64_size : ℕ
int64_size = 64

abbrev pub too_narrow : String
too_narrow = "cannot use dp-mongodb library when default int size is less than 64 bits"

-- The pointer or the error is not nil.
abbrev pub is_some : {A : Type 0} → Option A → Bool
is_some none = false
is_some (some a) = true

module _ (D : ClientDriver) where
  open D use {State, Client, Pool}

  -- A pointer that may be nil and an error.
  abbrev pub Opened : Type 0
  Opened = Option (MongoConnection Client) × Option Err

  unfoldable pub client_options :
      MongoDriverConfig → String → Option (TlsConfig Pool) → ClientOptions Pool
  client_options m uri tls_config = record {
    uri = uri;
    tls_config = tls_config;
    retry_writes = false;
    read_preference = if m.is_strong_read_concern_enabled then primary else secondary_preferred;
    read_concern = if m.is_strong_read_concern_enabled then some majority_read else none;
    write_concern = if m.is_write_concern_majority_enabled then majority_write else one_write;
  }

  -- `errors.New(fmt.Sprintf(…))`
  abbrev failure : String → Err → Opened
  failure message e = (none, some (text (message <> error D.name_text e)))

  unfoldable ping_client : MongoDriverConfig → Client → State → Opened × State
  ping_client m c s =
      let (err, t) = D.ping c m.connect_timeout s in
      (
        elim err [
          | none ↦ (some (new_mongo_connection c m.database), none)
          | some e ↦ failure "Failed to ping cluster: " e
        ],
        t,
      )

  unfoldable connect_client : MongoDriverConfig → Client → State → Opened × State
  unfolding ping_client
  connect_client m c s =
      let (err, t) = D.connect c m.connect_timeout s in
      elim err [
        | none ↦ ping_client m c t
        | some e ↦ (failure "Failed to connect to cluster: " e, t)
      ]

  unfoldable pub make_client : MongoDriverConfig → ClientOptions Pool → State → Opened × State
  unfolding connect_client
  make_client m options s =
      let (made, t) = D.new_client options s in
      elim made [
        | inl c ↦ connect_client m c t
        | inr e ↦ (failure "Failed to create client: " e, t)
      ]

  unfoldable pub open_ : MongoDriverConfig → State → Opened × State
  unfolding make_client client_options
  open_ m s =
      let (tls_config, tls_err) = get_tls_config D.append_certs_from_pem m.tls in
      let (uri, uri_err) = get_connection_uri m in
      if ltb D.int_size int64_size then ((none, some (text too_narrow)), s) else elim tls_err [
        | some e ↦ ((none, some e), s)
        | none ↦ elim uri_err [
          | some e ↦ ((none, some e), s)
          | none ↦ make_client m (client_options m uri tls_config) s
        ]
      ]

  -- Either a connection and a nil error, or a nil connection and an error.
  abbrev pub IsOpened : Opened → Type 0
  IsOpened o = is_some o.0 ≡ not (is_some o.1)

  -- How a connection came about: the calls of the driver all succeeded, with these options.
  pub record Made (m : MongoDriverConfig) (options : ClientOptions Pool) (s : State)
      (c : MongoConnection Client) (t : State) : Type 0 where
    pub before_connect : State
    pub before_ping : State
    pub created : (D.new_client options s).0 ≡ inl c.client
    pub before_connect_lem : (D.new_client options s).1 ≡ before_connect
    pub connected : (D.connect c.client m.connect_timeout before_connect).0 ≡ none
    pub before_ping_lem : (D.connect c.client m.connect_timeout before_connect).1 ≡ before_ping
    pub answered : (D.ping c.client m.connect_timeout before_ping).0 ≡ none
    pub after : (D.ping c.client m.connect_timeout before_ping).1 ≡ t
    pub same_database : c.database ≡ m.database

  pub make_client-Made :
      (m : MongoDriverConfig) (options : ClientOptions Pool) (s t : State)
      (c : MongoConnection Client) (err : Option Err)
      → make_client m options s ≡ ((some c, err), t)
      → Made m options s c t
  unfolding make_client
  make_client-Made m options s t c err e = ground arith

  pub make_client-IsOpened :
      (m : MongoDriverConfig) (options : ClientOptions Pool) (s : State)
      → IsOpened (make_client m options s).0
  unfolding make_client
  make_client-IsOpened m options s = ground arith
