-- ===== src/Lib.antt =====
-- DT-Go: a framework for Go services (domain driven design over iris, gorm and redis), verified
-- part by part. Paths are those of the repository.
--
-- The parts and how they interact. A request is served by a worker (internal/worker.go) with a
-- store that lives as long as the request. Entities (internal/entity.go) collect domain events. A
-- transaction (infra/transaction) runs a body between `Begin` and `Commit` or `Rollback` and shows
-- its handle to the repositories through the worker's store. The event manager (infra/domainevent)
-- inserts the events of an entity in the transaction and notes them in the same store; the event
-- transaction pushes the noted events after the commit; a push that fails is retried from the table.
-- The cache (infra/store) keeps what it reads in the worker's store and in redis; the distributed lock
-- (infra/dlm) keeps a value in redis that a watchdog renews. The pager (infra/pager) adds the clauses
-- of one page to a query, and errors/ makes the error that a client gets from a registered code. The
-- domain services of a request come from pools and go back to them at its end (internal/).
-- The event bus (internal/event_bus.go) finds the route of each event that a controller listens to.
-- The authentication (middleware/oauth2.go) lets a request pass whose token is active, and the rate
-- limiter (infra/rate) hands its rules to sentinel.
-- A handler reads its request and gives its reply by infra/requests.
-- The http client (infra/dhttp) runs a request through a chain of middlewares.
-- The rpc pool (infra/rpc) hands out thrift clients, and its agent runs calls on them.
--
-- Which file models which part:
-- - Base: shared names, tests on numbers, lists, the int32 arithmetic of the pool's counter.
-- - Rpc/Client and Rpc/Pool: thrift_pool.go. `ThriftPool` is the struct (with the calls of the registered `Close`
--   recorded), and each method is a function of the same name in snake case. What `Dial`, `Close`
--   and `Transport.IsOpen` answer are arguments, as are the pools that a waiting `Get` sees.
--   Rpc/Pool/Threads is the same code for many goroutines: an `Action` is one atomic access to the
--   pool, and a list of actions is a schedule. Rpc/Pool/Account, Sweep, Threads/Bound and
--   Threads/Reopened hold the proofs.
-- - Rpc/Agent: thrift_agent.go, `Do` with its retry and its deferred function.
-- - Internal/Entity: the events of an entity. Internal/Memstore: the worker's store, which is code
--   of iris, as an interface with laws, and a list of entries that meets it.
-- - Internal/Services: service_pool.go and the mark of `DeferRecycle`; a `Process` holds the pool and the
--   workers of all requests, and an `Action` is one access of a request.
-- - Cache: infra/store/cacher.go. What redis and the source answer is an argument, and what they are
--   asked is recorded.
-- - Dlm: infra/dlm/distributed_lock.go for all processes at once. Redis is an interface with laws
--   (Dlm/Store), time is counted in nanoseconds, and a list of actions is a schedule in which no
--   ticker is kept waiting.
-- - Pager: infra/pager/db_pager.go, with the 64 bits of Go's int. Errors: errors/error.go. UniqueId:
--   infra/uniqueid/sonyflake.go, over any generator and any parser of addresses.
-- - Dhttp: infra/dhttp. Dhttp/Cookies reads the cookies of a response, over bytes; Dhttp/Request is a
--   request and what `do` makes of it, Dhttp/Chain the middlewares around it, Dhttp/Results the shared
--   flights and the methods that give the body. The client and the decoders are arguments.
-- - Internal/Injection: what `New` in service_pool.go makes of a service's fields, with the pools of
--   repositories, factories and components. Objects are trees of fields, as reflection shows them.
-- - Internal/Headers: message_bus.go and the http requests of infra.go. A header is a map at an address,
--   which the bus and requests may share.
-- - Language: utils.go, the choice of a language from the header `x-language`, and the bearer token of
--   middleware/oauth2.go. Middleware/Authentication: the handler of oauth2.go, over any introspection.
-- - Middleware/BusFilter: middleware/bus.go, over any order of the keys.
-- - Requests: infra/requests, the methods that read a request and `Dispatch` of response.go; the decoders,
--   the validator and encoding/json are arguments.
-- - Rate: infra/rate/rate.go and `ConfigureRateRule`, over an interface of sentinel's rule manager.
-- - Internal/Application: app.go, what is installed and the order of `Run`, and the pool of other.go.
-- - Internal/EventBus: event_bus.go; the orders in which Go ranges over its maps are an argument.
-- - Internal/Infras: the lookup and the lending of components in internal/infra_pool.go.
-- - Repository: `FetchDB` and `FetchSourceDB` of internal/repository.go.
-- - Transaction: transaction.go. A body is any function on the component's state; the calls on the
--   database are recorded, and what gorm answers is an argument.
-- - DomainEvent/Save, Commit, Push, Retry, Publish: `Save`, the event transaction, the goroutine of
--   `push`, the retry rounds, and the row object of publish.go. Tables are lists of rows, over which
--   the SQL of the code is read; whether a `DELETE` takes effect is an argument.
--
-- Bounds and fuel. The digits of a code are computed on fuel, one more than the number, and more does
-- not change them. The pool's counter is an int32 with its wrap-around (`inc32`, `dec32`). A waiting
-- `Get` reads a list of wake-ups and says that it still waits where the list ends. The retry loop
-- runs on fuel, and more fuel than there are failed rows is proved to be enough. `Next` runs on fuel too,
-- as much as there are middlewares.
--
-- Not modelled: infra/rpc/thrift and infra/rate/sentinel are copies of other projects; logging, the
-- tickers and sleeps between rounds, reflection over user types, and input or output.
mod Base
pub mod Rpc
pub mod Internal
pub mod Transaction
pub mod DomainEvent
pub mod Cache
pub mod Dlm
pub mod Pager
pub mod Errors
pub mod UniqueId
pub mod Repository
pub mod Dhttp
pub mod Language
pub mod Middleware
pub mod Rate
pub mod Requests
