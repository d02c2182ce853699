-- ===== src/Errors.antt =====
-- Go error values, and mongodb/error.go. An error is compared by `==` with a package's variable
-- only, so those variables are names; every other error is known by its text and its cause.
pub mod Laws
use dp_mongodb.Base.{String, Bool, true, false, not, Option, none, some, if◌then◌else◌}
use dp_mongodb.Base.{ite}

-- The error variables that the code returns or compares with. The first three belong to the
-- driver and to mongo-lock, the next two to `context`, the others to this library.
pub data Name : Type 0 where
  client_disconnected no_documents already_locked : Name
  deadline_exceeded canceled : Name
  mongo_db_closing acquire_max_retries unlock_max_retries : Name
  no_ca_cert_chain invalid_ca_cert_chain : Name
  collection_does_not_exist mongo_db_connection : Name

unfoldable pub Name-discrete : Discrete Name
Name-discrete = hlevel

pub data Err : Type 0 where
  -- a package's error variable
  named : Name → Err
  -- `errors.New` or `fmt.Errorf` at the place of the failure
  text : String → Err
  -- another package's error that has no cause
  foreign : String → Err
  -- another package's error that has a cause
  wrapping : String → Err → Err
  -- `Error{inner: err}`
  library : Err → Err

-- The Boolean `m == n` for two error variables.
unfoldable pub name_eq : Name → Name → Bool
unfolding Name-discrete
name_eq m n = ite (Name-discrete m n) true false

-- `Error.Unwrap`, and the same method of other packages' errors
unfoldable pub unwrap : Err → Option Err
unwrap (named n) = none
unwrap (text t) = none
unwrap (foreign t) = none
unwrap (wrapping t e) = some e
unwrap (library e) = some e

-- `errors.Is(err, n)`: some error along the chain of causes is the variable `n`.
unfoldable pub is : Err → Name → Bool
is (named m) n = name_eq m n
is (text t) n = false
is (foreign t) n = false
is (wrapping t e) n = is e n
is (library e) n = is e n

-- `errors.Is` of an error that may be nil
abbrev pub is? : Option Err → Name → Bool
is? none n = false
is? (some e) n = is e n

-- `wrapMongoError`. The driver's two variables are this library's `ErrDisconnect` and
-- `ErrNoDocumentFound`.
unfoldable pub wrap_mongo_error : Option Err → Option Err
wrap_mongo_error none = none
wrap_mongo_error (some e) =
    if is e client_disconnected
    then some (named client_disconnected)
    else if is e no_documents
    then some (named no_documents)
    else some (library e)

-- The driver's `mongo.IsTimeout` is a parameter.
module _ (driver_is_timeout : Err → Bool) where
  unfoldable pub is_timeout : Option Err → Bool
  is_timeout (some (library e)) = driver_is_timeout e
  is_timeout _ = false

  unfoldable pub is_server_err : Option Err → Bool
  is_server_err (some (library e)) = not (driver_is_timeout e)
  is_server_err _ = false

-- The texts of the error variables are a parameter.
module _ (name_text : Name → String) where
  -- `err.Error()`
  unfoldable pub error : Err → String
  error (named n) = name_text n
  error (text t) = t
  error (foreign t) = t
  error (wrapping t e) = t
  error (library e) = error e
