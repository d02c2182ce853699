-- ===== src/Lib.antt =====
-- dp-mongodb: a Go library over the MongoDB driver, and a lock on top of it. This development
-- models its packages `mongodb`, `dplock` and `health`, with the steps of its component tests,
-- and proves what makes them correct.
--
-- The parts of the program and the files that model them:
--
-- mongodb/error.go: Errors. `Err` is a Go error value, `wrap_mongo_error` is `wrapMongoError`,
-- `is` is `errors.Is`, `is_timeout` and `is_server_err` are the predicates. The driver's
-- `mongo.IsTimeout` is a parameter. An error has one cause at most: an error that joins several,
-- or has an `Is` method of its own, is not modelled.
--
-- mongodb/options.go: Options. `FindOption` names the constructors, `apply` is the body of the
-- functions that they return, `new_find_options` is `newFindOptions`, and the four `as_driver_…`
-- functions say which setters of the driver's builders are called, and with what.
--
-- mongodb/collection.go: Collection.Types (the results), Collection.Read (the queries) and
-- Collection.Write (insertions, updates, deletions), over the interface `DriverCollection` of
-- Mongo, which stands for the driver's `mongo.Collection`. What the driver documents of its
-- answers is the records `IsLawful` and `IsCounting`, hypotheses of some theorems; Tests.Memory
-- has an instance. Collection.Paging is about `Find` and `Count`, Collection.Cursor about
-- `FindCursor`, Collection.Settled and Collection.Outcomes about results and errors. The spans
-- of OpenTelemetry are left out. int and int64 are unbounded integers: the code only compares
-- them, converts one to the other and passes them on. Collection.Width has the conversion at the
-- width of a platform, and Collection.Exact compares it with the counts of the methods.
--
-- mongodb/must.go: Must, over Collection.Write.
--
-- mongodb/timestamp_utils.go: Timestamps, over a heap of Go maps (Timestamps.Heap), since the
-- functions change the maps of their callers; Timestamps.Stamping is about `WithUpdates` and
-- `WithNamespacedUpdates`. A write to a nil map and an index out of range panic.
--
-- dplock/dplock.go: Lock. The lock client, the clock and the `select` on a timer and the closer
-- channel are the interface `World`. Lock.Retry has the loop that `Acquire` and `Unlock` share;
-- its fuel is the number of retries and one, since every round but the last is followed by a
-- retry. Lock.Decimal prints a time id, with fuel for 21 digits, more than a 64-bit integer has.
-- Lock.Server has what mongo-lock documents of its locks, as laws of a world, and Lock.Exclusion
-- any number of processes that lock and unlock at one such server, in any order, with locks that
-- expire and are purged. Lock.Ids is about the ids of locks, Lock.Timing about how long the
-- loops take. Lock.Setup has `New`. Lock.Purger has the purger's goroutine and any number of
-- calls of `Close` as a step relation, with every interleaving of them and of time;
-- Lock.Purger.Rate is about how often it purges.
--
-- mongodb/driver.go: Driver has the configuration, `get_tls_config` (`GetTLSConfig`, over the
-- parser of certificates, a parameter) and `get_connection_uri` (`GetConnectionURI`).
-- Driver.Regexp has regular expressions, their language and matching by derivatives;
-- Driver.Address says what an endpoint is; Driver.Uri is about the connection string.
-- Driver.Open is `Open`, over the driver's `NewClient`, `Connect` and `Ping`; Driver.Open.Counts
-- puts its test of the width of an int beside the methods of collection.go.
--
-- mongodb/connection.go and mongodb/graceful.go: Connection has the calls on a connection, and
-- Connection.Handles the handles that it gives out, on collections, on their `Must` and for
-- mongo-lock. Connection.Close has `Close` and the goroutine of `shutdown` as a step relation,
-- with every interleaving of the two, of time and of the context. Its durations are Go's, of 64
-- bits, in Base.Duration, where `sub` saturates and `plus` wraps. Whether timers are those of Go
-- before 1.23 or the later ones depends on the main program's module: it is the parameter
-- `old_timers` of the steps, as in Lock.Purger.
--
-- mongodb/transaction.go: Transaction, over the driver's sessions, of which `IsTransactional`
-- says what the driver documents. `WithTransaction`, the path with retries, is the driver's own;
-- Transaction.Attempts has what it documents as a relation between a call and how it ends, with
-- as many attempts as there are, and Transaction.Retries is about `RunTransaction` over it.
--
-- health/health.go: Health, over Connection. A Go map is the list of its entries in the order in
-- which a loop meets them. The functions in `CheckMongoClient` are fields of a record. The calls
-- of `state.Update` are a list.
--
-- testcomponent/steps.go: TestComponent, over Collection, Must and Transaction. A step is a
-- program over the component and the server, which goes on, returns an error or panics
-- (TestComponent.Programs). TestComponent.Queries has the steps that build and run queries,
-- TestComponent.Writes those that write, TestComponent.Results those that look at what is kept,
-- TestComponent.Transaction the one that updates in a transaction, and TestComponent.Scenario
-- `RegisterSteps`, with scenarios as lists of steps. TestComponent.Ready checks a scenario
-- before it runs. TestComponent.Phrases has the regular expressions of `RegisterSteps`, what
-- they capture, and the call that a text makes: godog takes the first step that matches, reads a
-- group in base 10 for an argument of type int, and passes it on for one of type string. A word
-- is of ASCII letters, digits and `_`, as in Go's `\w`. encoding/json, testify and
-- dp-component-test are the parameters in `Toolkit`. A nil slice and an empty one are the same
-- list.
--
-- Base has what all share: the library names, tests, integers, durations, lists. Bson has the
-- values of callers. Tests has runs at concrete inputs and an example of each theorem.
--
-- Not modelled: logging and tracing, `Timestamps` of mongodb/timestamp_utils.go, which only
-- names fields for the encoding of documents, godog's reading of feature files and its hooks,
-- and the mocks that moq generates (dplock/mock).
pub mod Base
pub mod Errors
pub mod Bson
pub mod Options
pub mod Mongo
pub mod Collection
pub mod Must
pub mod Timestamps
pub mod Lock
pub mod Driver
pub mod Connection
pub mod Transaction
pub mod Health
pub mod TestComponent
pub mod Tests
