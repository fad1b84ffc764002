-- ===== src/Lib.antt =====
-- PPVDA, verified: the parts of the video download server that keep its promises.
--
-- The program. A user asks the server for a page or a video. The job store (src/jobs/store.ts) keeps
-- a job; the pipeline (src/jobs/pipeline.ts) takes a slot, checks that the VPN may be used
-- (src/mullvad/health.ts, src/server/vpn-permissions.ts), checks the URL against private addresses
-- (src/utils/url.ts), finds videos on the page, picks one (src/extractor/patterns.ts,
-- src/downloader/index.ts), downloads it, uploads it to Darkreel and removes it. Sessions keep the
-- users' keys in memory (src/auth/sessions.ts), and the account limiter slows down guesses of
-- passwords (src/auth/index.ts).
--
-- The files.
-- - Base: library names passed on, Boolean tests, lists over the native numbers, JavaScript's Map in
--   insertion order (Base/JsMap), stable sorting (Base/Sort) and texts as code units (Base/Text).
-- - Utils/Semaphore, Utils/UserLimiter: `BoundedSemaphore` and `PerUserLimiter` of
--   src/utils/semaphore.ts. A caller is a number; an interleaving is a list of steps.
-- - Utils/Ranges, Utils/Url: `BLOCKED_RANGES`, `isPrivateIP`, `isBlockedHostLiteral`,
--   `safeResolveHost`, `isPrivateUrl` and `isConfirmedPrivateUrl` of src/utils/url.ts.
-- - Auth/Sessions: `SessionStore`, over a heap of key buffers, so that a zeroed key is visible.
-- - Auth/Limiter: `AccountLimiter` of src/auth/index.ts.
-- - Crypto, Db: the sealed texts of src/crypto/index.ts and the tables of src/db/index.ts.
-- - Auth/Server and its siblings Register, Login, Recover, Account and Gate: the routes and preHandlers of
--   src/auth/index.ts over one state of the database, the sessions and the two limiters. A handler
--   that awaits has an argument for what other requests do to that state meanwhile.
-- - Jobs/Types, Jobs/Store: the jobs and `JobStore`, with its events, eviction and sweep.
-- - Jobs/Pipeline: `processJob`, `uploadStep` and `submit`. What a run meets outside is a record of
--   replies, and at each wait, the one for the removal included, the other calls of the store are a
--   list; the effects, the checks of URLs included, are a trace.
-- - Vpn/Health, Vpn/Permissions: the kill switch, whose start is what stands before its first checks and
--   what stands behind them, and who may choose the route.
-- - Utils/Fs: the overwriting and the removal of directories of src/utils/fs.ts; the loop has the size of
--   the file as fuel, and each turn moves on by at least one byte. What the disk replies is an argument.
-- - Utils/SsrfProxy: the forward proxy of src/utils/ssrf-proxy.ts, as what a request makes it open.
-- - Mullvad/Relays, Mullvad/Control: the relays of src/mullvad/api.ts and their choice; set-up, tear-down and
--   switch of src/mullvad/index.ts over the replies of the API and the supervisor, and over what other
--   requests do while a switch waits.
-- - Extractor/Patterns, Downloader: what a URL is taken for, the choice of a video, the names of
--   files and `downloadVideo`. Downloader/Direct: retries, redirects and the cap of
--   src/downloader/direct.ts; the redirects that are left are the recursion.
-- - Server/JobRoutes, Auth/Password: the handlers of src/server/routes/jobs.ts, the gate of
--   src/server/vpn-killswitch.ts, and the rules for passwords and names of src/crypto/index.ts.
-- - Server/Admin, Server/Settings: the handlers of src/server/routes/admin.ts and settings.ts.
-- - Proxy: `parseProxyUrl` of src/proxy/index.ts.
-- - Darkreel/Mp4, Darkreel/Codecs: the box walk and the codec strings of src/darkreel/mp4-codecs.ts. The
--   walks have fuel, one more than the end of the part, and each box has at least eight bytes; a walk
--   that runs out of fuel has a result of its own.
--
-- The conventions. Times are milliseconds in natural numbers, and the clock is an argument. A
-- difference of times stops at zero, where the source compares a negative one with a positive bound.
-- Strings are native strings where they are only compared, and lists of code units where they are
-- walked; lower case is that of ASCII. Loops over maps and lists are structural.
--
-- Parameters. `net.isIP`, the URL parser, DNS, SQLite, the browser, HTTP and ffmpeg are not
-- part of the repository: they are arguments, as functions or as the replies that they give. So are
-- AES-GCM, argon2, scrypt, PBKDF2 and the encodings of Node (`Crypto.Primitives`), with their documented
-- laws as `Crypto.IsLawful`, and the verification of a token.
--
-- Not modelled: the handlers of extraction, thumbnails and the stream download, the Darkreel client, the
-- migrations of the database, sockets, child processes, logging, the browser's scripts and the Go
-- supervisor, which do input and output or are separate programs; derivations that only equalise
-- the time, and the zeroing of local buffers, which no result shows.
pub mod Auth
pub mod Base
pub mod Crypto
pub mod Darkreel
pub mod Db
pub mod Downloader
pub mod Extractor
pub mod Jobs
pub mod Mullvad
pub mod Proxy
pub mod Server
pub mod Utils
pub mod Vpn
