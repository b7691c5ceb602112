-- ===== src/Lib.antt =====
-- The decommissioning service of decommission/: servers are registered, their retirement is
-- applied for and reviewed, their disks are pulled and wiped by background workers, and the
-- machines are signed off for disposal.
--
-- Parts and files. Domain models decommission/internal/domain: the entities and statuses, the two
-- transition tables (Domain/Status) and the built-in standards (Domain/Standards);
-- Domain/Lifecycle states the asset's life as a graph of its own. Store models
-- decommission/internal/store/memory.go, the in-memory implementation of the interface Store: one
-- function per method over the record Memory, which holds a list of entries per Go map, in the
-- order in which a range visits them (Store/State to Store/Approvals, Store/Acquire for
-- AcquireNextJob); Store/Commands is the interface as one type of commands with one step.
-- Store/Ledger is what its callers rely on, as an abstract ledger that evolves, and the interface
-- that a store fills with its calls. Postgres models decommission/internal/store/pg.go over the
-- tables of decommission/migrations: Postgres/Database the tables, the faults of a statement and
-- the transaction, Postgres/Statements and Postgres/Queue each statement with the keys, checks,
-- indexes and triggers that it meets, Postgres/Assets to Postgres/Approvals the methods,
-- Postgres/Commands a call with its connection; Postgres/Moves, Postgres/Obeyed and
-- Postgres/Methods carry a relation from the statements to every method. Service models
-- decommission/internal/service/service.go: Service/Requests registers assets and handles
-- requests, Service/Execution pulls, queues wipes, scraps and signs. Erasure models
-- decommission/internal/erasure: Erasure/Stream the bytes of the passes (streamAt, pad16),
-- Erasure/Device the device, Erasure/Samples, Erasure/Engine and Erasure/Verify the engine
-- (sampleRanges, overwrite, verify, Run, Verify). Erasure/Resume states what a loss of power
-- leaves, and Erasure/Runs any sequence of runs that are cut off and go on at the last checkpoint;
-- Worker/Resumed reads that checkpoint from the store. Worker models decommission/internal/worker:
-- Worker/Job and Worker/Certify runJob and what it calls, Worker/Reverify the standalone
-- verification, Worker/Scheduler the process with its slots (New, Start, Stop, fillSlots) and a
-- step relation between its loop, its goroutines and the other callers of the store, Worker/Locks
-- and Worker/Reclaims what a claim protects. Config models
-- decommission/internal/config/config.go; AllowedDevicePath stands in Worker/Names. Objects models
-- decommission/internal/objectstore: Objects/Paths and Objects/Filesystem the filesystem backend,
-- the path of a key, Put and Get over a table of files, Objects/Signed and Objects/Remote the S3
-- backend, its requests with their signatures and Put, Get and EnsureBucket over a server, and
-- Objects/Verification the check of a signature by a server, as decommission/internal/objectstore's
-- s3_test.go has it. Report
-- models the function Build of decommission/internal/report. Api models decommission/internal/api:
-- Api/Request and Api/Reply what respond.go reads and sends, Api/Handlers the handlers of
-- server.go, Api/Endpoints its routes. The other files of a part hold its theorems, Prelude and
-- Result the shared helpers, Scenarios the concrete inputs.
--
-- How the parts interact. The service and the worker call the store, in the state monad Exec of
-- Result, which keeps the state of a method that fails; the worker drives the engine over a rig,
-- the device beside the store, and the engine reports progress by a function that saves it in the
-- store. The endpoints call the service, and the store for what they only read; the worker and the
-- object store reach them as the fields of Server. A method of the memory store holds the mutex
-- throughout, so that it is one step, and a run of steps stands for any interleaving of callers. A
-- method of the database is one transaction, or one statement: during a call the connection works,
-- is lost before the commit, or is lost between the commit and its answer, and a server that
-- refuses a statement is the second of these. As their texts stand, that is what PostgreSQL does
-- with the query of AcquireNextJob, which locks the nullable side of a join, and with the statements
-- that name the reserved column offset; Postgres/Jobs has what they say, and no result rests on their
-- success. Transactions take effect one after another; two that
-- run at the same time and read rows that they do not lock are not modelled.
--
-- Conventions. Times and timeouts are nanoseconds and sizes are naturals, below the bounds of int64; the
-- counter of the cipher and the seed of the samples wrap around. Errors keep their kind (not
-- found, conflict, other) and a text without its arguments; the texts of audit entries are
-- constructors of Detail. The clock, the random identifiers, the order of the maps and the
-- matching of ILIKE are arguments. So are the cipher's keystream, the generator of math/rand, the
-- product of a size and a fraction, the formats of dates and numbers, the archive of reports, the
-- hashes of a signature, and the faults of the device and the context, which may strike at each
-- call of a run. Each loop of the engine runs on fuel of one more than its bytes, which is enough
-- since a round advances by at least one; the loop that chooses the samples has fuel for the 4096
-- spans behind which it leaves. The two reads of a device's size in one job fail alike, a negative
-- timeout of the configuration is none of the model's, and a cipher whose counter ends within a chunk
-- goes on. A round of fillSlots needs more fuel than there are free slots. The body of a request is
-- an argument in its decoded form. A sort puts entries that are equal in the order in some order
-- of its own.
--
-- Not modelled: the pool of connections and the run of the migrations; the widths of the integer
-- columns; the reading of an endpoint by net/url, the commands and the templates of reports;
-- SeedDemoDisks of both stores; the logging of the API and the timers of the worker's loop. The
-- texts of error messages are left out of the replies.
pub mod Prelude
pub mod Domain
pub mod Result
pub mod Store
pub mod Erasure
pub mod Service
pub mod Objects
pub mod Report
pub mod Api
pub mod Config
pub mod Postgres
pub mod Worker
pub mod Scenarios
