-- ===== src/Lib.antt =====
-- go-core: an authorization engine and the small services around it, modelled and proved correct.
--
-- go-core is a set of Go packages for business applications. The core of its own logic is authz/:
-- permissions are declared in a catalogue, roles bundle grants of permissions, a binding gives a
-- subject a role at a scope, and scopes lie in a hierarchy of levels (organization, dealer, location).
-- A request is judged by loading the subject's bindings, resolving every binding to clauses, and
-- asking whether a clause reaches the record. A cache keeps what was loaded; roles and bindings are
-- changed through checks that stop escalation. Each model follows the source function by function, in
-- the order of its tests and its early returns, and has the source's names in this spelling.
--
-- Which file models what:
--   Prelude.antt and Prelude/: Boolean tests, Go's `int` as an integer, comparison as an interface,
--     lists, and Go's maps as association lists (lookup, insert, delete); Dominance has the argument on
--     elements beaten by others that pruning rests on.
--   Authz/Errors.antt: authz/errors.go and the codes of apperr/codes.go. An error is a value: the
--     sentinel that errors.Is finds, the code that wraps it, the problems of a validation. Its English
--     text is left out.
--   Authz/Types.antt, Authz/Qualifiers.antt, Authz/Words.antt: the records of authz/principal.go, role.go,
--     permission.go, qualifier.go, binding.go and access.go, the text of qualifiers, and the word pattern
--     of permission.go.
--   Authz/Hierarchy.antt: authz/hierarchy.go. The application's ScopeResolver is the parameter `parent`.
--     Valid is about NewHierarchy; Chains, Containment and Totality are about Hierarchy.Chain.
--   Authz/Catalogue.antt, Authz/Role.antt: authz/catalogue.go and role.go (Define, Lookup, All, Resolve,
--     Validate); Valid is about Define. Catalogue/Requirements has the search for cycles of Validate and
--     freeze, with Visits, Acyclic and Exact about it; Role/Closed is about Role.Validate,
--     and Role/Computed has the selectors of authz/computed.go.
--   Authz/Clause.antt: the Clause of authz/effective.go, covering and pruning, and access.go's
--     matchRecord. Covers and Prune are about the two.
--   Authz/Effective.antt: Engine.build and what it returns. The store is a record of functions, Reader,
--     as in authz/store.go. Build, Resolved, Valid and RoleChange are about the clauses that it makes
--     and the roles that they rest on.
--   Authz/Cache.antt: authz/cache.go; each method is one step, as its mutex makes it, and the clock's
--     reading is an argument. Eviction is about EvictRole, and Freshness has the interleavings of loads
--     and evictions as a step relation.
--   Authz/Engine.antt: Effective, prepare, Require, RequireOn and Access of authz/engine.go and
--     access.go. The cache goes from call to call; `ctx` is the principal that the request carries. Cached,
--     Decisions, Agreement and Unrestricted are about their answers. Setup has NewEngine, Payload the
--     MyAccess of authz/payload.go, Holders the HoldersOf of authz/holders.go with its children about the
--     answer, and Record the RequireRecord of access.go.
--   Authz/Delegation.antt: authz/delegation.go, with Escalation, Assignment and LastAdmin.
--   Authz/Admin.antt: authz/admin.go over the Store of authz/store.go; Fresh and RoleFresh are about
--     the cache that its operations leave.
--   Money.antt: money/ over int64 bit patterns. Money has Add, Sub and Sum of money.go, and Overflow is
--     about their checks; Allocation has Allocate; Rational the fractions of math/big and the rounding
--     half away from zero; Decimal the parsing and printing; Exact exact.go and rate.go; Rates the
--     operations of money.go that round once.
--   Ratelimit.antt: ratelimit/ratelimit.go, with Windows about Allow and Stopping with Stop.
--   Navigation.antt: navigation/navigation.go, with Filter.
--   Lock.antt: the SQL store of lock/gormstore/gormstore.go, statement by statement, and the Locker of
--     lock/lock.go; Leases and Acquired are about its answers. Lock/Hold has Hold and its heartbeat as a
--     step relation; Clients, Calls, Granted and Standing are about the calls that other clients disturb,
--     Held and Kept about what Hold keeps, Ending and Ends about its end.
--   Event.antt: event/, the transactional outbox. Tables has the two SQL tables as functions from their
--     keys (outbox.go, envelope.go, queue.go's rows, Publish of typed.go); Retrying the retry policy of
--     typed.go; Queue the transactions claim, lease and finish of queue.go; Worker the handling of a
--     claimed event by worker.go; Problems the check of the consumers in typed.go; DeadLetters (its child
--     Listing has the list) and Housekeeping the files of those names. Steps makes them one state machine,
--     whatever process runs them; its children, Queue's, Worker's, Retrying's, Problems', DeadLetters' and
--     Housekeeping's are about what they do.
--   Identity.antt: the one-time codes of identity/account/codes.go over identity/gormstore/codes.go. Codes
--     has the service and Store the table; Rows and Later are about one code and what other requests make
--     of it, Guesses, Definite and Issued about what Verify and Issue promise.
--     SignIn has the Login of signin_service.go with attempts.go and the lock of signin.go; Streak is about
--     the lock. Reauth has reauth.go over the row of one account, and Guesses the number of the passwords
--     that it lets be checked.
--   The modules named Examples, and those below them, hold the concrete runs that apply the theorems.
--
-- How they interact: an event's transactions lock its outbox row first, so each is one step of the queue,
-- and any two workers, the dead letters' service and the housekeeper interleave transaction by
-- transaction.
--
-- Bounds and fuel: the loop of Hierarchy.Chain goes one level up in every round, so its fuel is the
-- number of levels. The search for cycles marks one permission more in every visit, so its fuel is the
-- number of permissions and one. The epoch of the cache wraps at 2^64, as the source's uint64 does.
-- Store.Acquire of the lock makes the source's five attempts. The loops of the sweep read ids above
-- the last ones in every round, so the number of ids bounds their rounds. The backoff doubles once for
-- each failure at most. Verify and the re-confirmation go through a list of rounds, with what other
-- requests do around each. Go's `int` is an unbounded integer here: the modelled code only compares
-- such numbers, HoldersOf by the sign of the difference of two ids. Cents are int64 bit patterns, with
-- their wrap-around written out.
--
-- Parameters: the store (Reader and Store), the ScopeResolver, the FeatureResolver, the clock and
-- net/url are not part of the modelled code and are arguments of the definitions that call them.
--
-- Not modelled: logging, HTTP and JSON, the texts of errors, SQL behind the stores, and the packages
-- that are plumbing around third-party libraries (database, gocore, web, pdf, mail and the like), the
-- generators and the command line tools. Of event, Drain, the poller's goroutines and channels, and
-- the idempotency keys are not modelled; of money, what reads or writes floating point (FromFloat,
-- Float, RateFromFloat) is not; of identity, sessions, impersonation, the administration of accounts
-- and their stores are not.
pub mod Prelude
pub mod Authz
pub mod Event
pub mod Identity
pub mod Lock
pub mod Money
pub mod Navigation
pub mod Ratelimit
