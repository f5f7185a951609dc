-- ===== src/Lib.antt =====
-- mdfly publishes a bundle of Markdown files under a short slug. A client asks to publish (init), puts
-- the files into an object store, and commits; an Edit Token lets it update and delete the document
-- later. Background jobs purge the edge cache after each change and collect documents that expired,
-- were deleted or were never committed. This library models the server's core and the decisions of the
-- command line, and proves what makes them correct.
--
-- Parts and files (paths from the repository's root):
-- - Common: helpers: Boolean tests, lists, signed integers with the int64 wrap-around, byte strings (cut,
--   split, trimmed, sorted), hex and decimal, UTF-8, paths, dictionaries as association lists.
-- - Api, Httpx: internal/api (limits, codes, requests), internal/server/httpx (errors of a handler).
-- - Manifest, Blobs, Slug: internal/server/manifest, names, checks and
--   deletion of blobs in internal/server/storage and internal/blobmeta, internal/slug with generateSlug.
-- - Platform: what is outside the repository and a parameter here: the JSON encoding of a manifest,
--   SHA-256, HEAD requests and presigning of the object store.
-- - Documents: internal/server/db. Table has the rows, Ops the statements on one row, Sweep those of the
--   collector, Queue the purge queue, Tx the transactions; Effects is what a statement does to one slug;
--   Steps is the relation of all of them, Rows,
--   Selection and Invariant are what they keep. A Database is the two tables and the id sequence; each
--   statement is a function of it and of the time, and answers a row or one of the package's errors.
-- - Publish: internal/server/service/publish. Validate (validate.go), Blobs (publish_helpers.go), Init and
--   Commit (publish.go), Update and UpdateCommit (update.go). A handler takes the database and gives the
--   one that it leaves, its answer, and the slug whose inline purge it kicked off; Published of Commit
--   and Landing of UpdateCommit describe what an accepted one has done. Runs (and Runs of
--   Gc.Sweep) say which handlers are runs of the step relation.
-- - DeleteDocument: internal/server/service/document.
-- - Purge: internal/server/service/purge (Purge, AttemptInline, Drain, backoffFor).
-- - Gc: internal/server/service/gc (Sweep, deleteBlobs). A pass reads two clocks, the service's and the
--   database's, and collects the slugs whose prefixes it has touched.
-- - RateLimit: internal/server/ratelimit (Limiter), and who a request is charged to (Subject):
--   internal/server/middleware/clientip.go and the keys of the counters.
-- - Config: internal/server/config.go, and of internal/server/app.go the registration of the jobs (Wiring);
--   Accepted is what an accepted configuration gives them.
-- - FileTree: internal/server/filetree. Classify says what a path addresses, Listing has the listing of a
--   folder and its index document, Tree the tree of the sidebar, Crumbs the breadcrumb.
-- - View: internal/server/service/view. Address and Resolver (resolver.go) say where references lead,
--   Service and Pages (view.go) have the pages, Shown what a page shows; what renders them is a record of parameters.
-- - Raw: internal/server/service/raw (Classify, Open) and internal/server/handlers/raw.go (Handler).
-- - Jobs: internal/server/jobs (Runner), internal/server/db/jobruns.go (Record), and History, what the
--   row of a job tells.
-- - Cli: internal/cli. Limits, Retry and Exit: the bundle, its limits, isRetryable and withRetry
--   (publish/), the exit codes (output/). Walk: the files that a publish uploads (walk/walk.go); Crawl is
--   the loop, Reached and Gathers what it finds, Within and Inside that it stays in the project root.
--   LocalState: the records and Edit Tokens on disk (localstate/), their Ledger, and in Persist what a
--   publish, an update and a removal do to them (publish/persist.go, publish/update.go). Commands: the
--   slug that the arguments name (Targets) and the commands delete and remove (Delete) of cmd/.
-- - Tests: runs at concrete data, and the theorems at them.
--
-- Calls and interleavings: a parameter says of each call of the database, the store or the edge whether
-- it gets through; a COMMIT may be done with its answer lost. What other transactions do between two
-- calls of a handler is a parameter too, a function on the database, which the theorems leave open. The
-- command line's file system, what the Markdown package finds in a page, the JSON of its files, and each
-- of its system calls are parameters (that JSON reads back what it wrote is assumed of maps of UTF-8 text
-- only, and up to the order of the entries); so are the router of net/http, the addresses of net/netip, SHA-256, time.ParseDuration and
-- url.Parse. Two runs of the command line at once are ordered by the file lock, whose effect is that a
-- change of a file is one step.
--
-- Numbers: a time or a duration is a number of nanoseconds (in the limiter, of seconds); int64 sums are
-- taken with their wrap-around. Four loops take fuel: the deletion of a prefix and the crawl, for which
-- theorems tell how much is enough; the digits of a number n, which are made with fuel n, as each step
-- divides by ten; and the search for a free name, with one try more than there are files. Every other
-- loop goes through a list or a number of tries.
--
-- Strings are lists of bytes; changing case and trimming space look at ASCII only.
--
-- Paths are those of Unix.
--
-- Not modelled: rendering of Markdown and of the page template, the HTTP handlers but the raw one, with
-- the middleware but for the subjects of the limiter, the front end, the clients of Redis, Cloudflare
-- and S3, the start and stop of processes and of the job runner, and of the command line the reading of
-- input, the uploads, its own configuration, the output, and the commands list, open and publish around
-- the parts above: they are calls of other code, or I/O. Log lines are left out.
pub mod Common
pub mod Api
pub mod Httpx
pub mod Manifest
pub mod Platform
pub mod Documents
pub mod Slug
pub mod Blobs
pub mod Publish
pub mod DeleteDocument
pub mod Purge
pub mod FileTree
pub mod Gc
pub mod Jobs
pub mod RateLimit
pub mod Raw
pub mod Cli
pub mod Config
pub mod Tests
pub mod View
