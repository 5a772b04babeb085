-- ===== src/Lib.antt =====
-- The order, payment and catalog services of the laundry API, and the sessions of its tenants, on the
-- tables that they read and write, the limiter of its authentication routes, and the checks of its
-- settings.
--
-- Parts, and the files that model them:
-- - Store, Store/Enums, Store/Rows: the tables. `Db` has one list for each table, in the order of
--   insertion, and the next value of each id sequence; a row is a record with the columns of
--   internal/repository/postgresql/models.go that these services use. A text column that the
--   program compares with fixed words is a data type; an unknown spelling in a request is kept
--   under a last constructor.
-- - Query/Lifecycle, Query/Creation, Query/Payments, Query/Listing: the statements of
--   internal/repository/postgresql/orders.sql.go and payments.sql.go, as functions of the tables:
--   a SELECT is `find?` or `select`, an UPDATE is `update`, an INSERT appends, ORDER BY is an
--   insertion sort. LIMIT and OFFSET are natural numbers; PostgreSQL refuses negative ones.
-- - Effect: how a service method runs. `M A` takes the environment of a transaction and the tables
--   and returns a result with the tables after it. Each call of the database can fail, as the
--   environment says; `transaction` is Begin, the body, Commit and the deferred Rollback
--   (internal/repository/connection.go, and the driver it hands out). Effect/Hoare has the rules of
--   partial correctness, Effect/Run the equations of runs whose calls succeed, Effect/Atomic the
--   methods that write nothing when they fail.
-- - Actor: the authenticated user (internal/service/services.go), and what an audit row keeps of a
--   request.
-- - Orders/Status, Orders/Lifecycle, Orders/Reads: `allowedOrderTransition`, `validStatusTarget`,
--   `lockLifecycleOrder`, and the methods `TransitionStatus`, `Cancel`, `StatusHistory` and `List` of
--   `OrderCatalog` (internal/service/orders.go).
-- - Orders/Lines, Orders/Views, Orders/Loading, Orders/Creation: the methods `Create` and `Get` of
--   `OrderCatalog`, with `loadOrder`. The transaction of `Create` is cut into steps: the outlet and
--   its staff, the replay of a key that is taken, the lines, and what is written after them.
-- - Orders/Quantity: `parseMilliQuantity` and `FormatQuantity` of the same file, on the bytes of the
--   text.
-- - Payments/Amounts, Payments/Views, Payments/Steps, Payments/Record, Payments/Void,
--   Payments/Listing: `paymentAmounts`, `paymentStatusFor`, and the methods `Record`, `Void` and
--   `List` of `PaymentCatalog`
--   (internal/service/payments.go). Their transactions are cut into steps: the locked order, the
--   refund check, the ledger read, and what is written after it.
-- - Query/Services: the statements of internal/repository/postgresql/services.sql.go. The lower case
--   and the order of texts and ILIKE are the database's, a record of functions (`Collation`).
-- - Services: `ServiceCatalog` (internal/service/services.go): `validateServiceInput`, and the methods
--   `List`, `Get`, `Create`, `Update` and `Delete`. An input that passes the validation has its unit as
--   a value of the data type. Services/Restocked has what the methods may write, Services/Answers what
--   an update and a deletion do.
-- - Ledger: the invariant that ties an order to its payments, and the proofs about Record and Void.
-- - Timeline: the invariant that ties an order to its status history and time stamps, and the
--   proofs about TransitionStatus and Cancel, and about Record and Void.
-- - Integrity: all of these invariants together with the ids in use, over every sequence of requests
--   to the methods that change orders, payments and services.
-- - Query/Sessions: the statements of internal/repository/postgresql/auth.sql.go, and the audit
--   statement of management.sql.go.
-- - Sessions, with Sessions/Issue, Sessions/Login, Sessions/Refresh and Sessions/Logout: the handlers
--   `Login`, `Refresh`, `Logout` and `Me` of internal/handlers/auth.go, and `TenantSessions`
--   (internal/service/tenant_sessions.go). A response with an error is the error of the method, and
--   `status_of` its HTTP status. The transaction of a refresh takes the row that was looked up before
--   it; the two ways it ends, a new token or the containment of a replay, are definitions.
-- - Sessions/Tokens: the claims of access tokens (internal/security/token.go).
-- - Sessions/Authenticate: the middleware of internal/middleware/auth.go. `authenticate` takes the
--   header of a request and returns its principal. Authenticate/Sound says what a principal means,
--   Authenticate/Complete that issued tokens are accepted.
-- - Families: the two tables of sessions, the lineages, in which ids are below their sequences and
--   name one row each, every token is of a family that was opened, and no family has two tokens that
--   are not consumed, and the view of the tables as an abstract state that has one digest or nothing
--   for each family. Families/Outcomes has what each transaction found
--   and wrote, Families/Opened, Rotated and Closed the three changes, Families/Steps any sequence of
--   transactions, Families/Spec the abstract steps.
-- - RateLimit: the limiter of the authentication routes (internal/middleware/auth_limits.go). `visit`
--   is one request under the lock: its key, its time, the verdict and the table after it. The
--   limits of a limiter are natural numbers, as the server passes them, and times are nanoseconds;
--   the map is a list of rows. Request bodies (`AuthBodyLimit`) are not modelled.
-- - Config: the settings of the process and `validate` (internal/config/config.go).
--   `strings.EqualFold` and the `sslmode` that `url.Parse` finds are a record of functions that the
--   definitions take. The reading of the environment is not modelled.
-- - Tests: a small shop on which the methods run.
--
-- How the program is read:
-- - Ids are natural numbers. The guards refuse every id below 1, so 0 stands for all of them.
-- - An int64 amount is an integer; sums and differences in Go wrap (`add64`, `sub64`), the SUM of
--   the database is exact. A text is a list of code points, a byte string a list of numbers; Go's
--   `len` of a text counts the bytes of its UTF-8 encoding.
-- - Row locks make a method one atomic step on the tables; so a method is a function of the tables,
--   and an interleaving is a sequence of calls.
-- - A violated constraint is a failure of its call. UNIQUE (business_id, id) of orders is part of
--   the invariants. A transaction that reports an error leaves the tables as they were; that covers
--   a Commit that reports one, which is taken as not applied, and the id sequences, whose values
--   PostgreSQL would skip.
-- - The JSON values of an audit row are a data type; marshalling them does not fail.
-- - The dates of invoices are the numbers that they are written as, yyyymmdd. The time and the date
--   that GetOrderTime reads are the environment's. The advisory lock of `Create` has no row.
-- - `Library` is the code that sessions call and that is not here: the lower case and the order of
--   texts in the database, bcrypt, the digest of refresh tokens, and the JWT package, which cuts times
--   to seconds, signs, and reads back. A theorem that needs its documented behaviour names it
--   (`IsSigning`).
-- - The clock of the program, in microseconds, and the next random text are the environment's; a
--   request reads one time. The queries of one request outside a transaction read the tables at one
--   moment. In `Families/Steps` a transaction takes any row as looked up before it, so any other
--   transaction may come between the lookup and the lock.
-- - The handlers read a body that `decodeAuthBody` decoded, found too large, or refused.
-- - The definitions are structural, but for the digits of a number, whose fuel is the number's
--   successor: each digit divides it by ten.
--
-- Not modelled: the catalogs of perfumes and customers, registration and suspension of tenants,
-- platform accounts, management, receipts, expenses and reports, the other HTTP handlers and the
-- generated API; the check of the signing key and the rules for new passwords; the time that the
-- dummy password comparison takes; the triggers and the receipt snapshots of the database.
pub mod Prelude
pub mod Store
pub mod Effect
pub mod Query
pub mod Actor
pub mod Orders
pub mod Payments
pub mod Ledger
pub mod Timeline
pub mod Integrity
pub mod RateLimit
pub mod Config
pub mod Services
pub mod Sessions
pub mod Families
pub mod Tests
