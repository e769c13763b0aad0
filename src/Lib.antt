-- ===== src/Lib.antt =====
-- A verification library for ocis-ftp-bridge, a server that takes FTP uploads, spools them and stores
-- them in oCIS over WebDAV.
--
-- The program's parts. The FTP library accepts connections and asks the driver (pkg/ftp/driver.go)
-- to let them in, to check logins and to open uploads. The driver keeps a tracker of connections and
-- one of failed logins. When an upload is opened, the transfer manager (pkg/transfer/transfer.go)
-- finds its path below the account's root and resolves collisions; what is written goes into the
-- local spool (pkg/spool/spool.go); on the close the transfer manager creates the directories above
-- the path, and the WebDAV client (pkg/webdav/client.go) sends the file. The drive of an account
-- comes from the client of the LibreGraph API (pkg/graph). The operations server (pkg/http) tells
-- whether the service lives and is ready. pkg/server validates the configuration (pkg/config) and
-- puts all this together; cmd/hash-password makes the hashes that a configuration holds.
--
-- What models what. A struct is a record of the same name, a method a function in snake_case
-- that takes the state and returns its result with the new state; an error is a value of `Result`, or
-- of `Option` where only an error is returned. A lock is held for the whole of a step.
-- - Prelude: shared names, Boolean tests, byte strings, Go's maps as association lists, results.
-- - Go: the functions of Go's standard library that the program calls: strings, path/filepath,
--   strconv, unicode/utf8 and net.SplitHostPort, on byte strings.
-- - Transfer: pkg/transfer/transfer.go. Types are the structs; Paths is `CalculateTargetPath`,
--   `normalizeFTPPath`, `sanitizeFilename` and `validateTargetPath`; Collisions is `CheckCollision`,
--   `GenerateUniqueFilename` and `ResolveCollision`; Directories is `EnsureParentDirectories`;
--   Upload is `ProcessUpload`. The WebDAV client is a record of two operations on a remote state.
-- - Spool: pkg/spool/spool.go. UploadManager is the `uploadManager`; an `*Upload` is a reference into a
--   heap of uploads, and the answers of the file system, the clock and SHA-256 are arguments. Files is
--   the `defaultManager` over a disk that maps paths to files, and Streaming its `StoreStream`.
-- - Errors: pkg/errors/errors.go. Config: pkg/config/config.go; Types are the settings, Sizes is
--   `ParseByteSize`, Addresses the checks of addresses and URLs, Passwords `parseArgon2ID` and
--   `VerifyPassword`, Certificates `ValidateTLSConfig`, Validation `validateWithEnv`, HttpAuth what
--   that makes of the operations server's authentication, Credentials
--   `checkForPlaintextCredentials` and Loading `LoadFileWithEnv`. The environment, the files, the YAML
--   decoder, the parsers of IP addresses and URLs, base64 and Argon2id are parameters.
-- - Webdav: pkg/webdav/client.go. Paths is `normalizePath`; Client has the operations over a
--   transport that stands for net/http, url.Parse, the body's rewinding and the retry's timer.
-- - Ftp: pkg/ftp/driver.go. ConnectionTracker and AuthTracker are its two trackers, Connections is
--   `ClientConnected` and `ClientDisconnected`, UploadSlots is `acquireUploadSlot` and
--   `releaseUploadSlot`, with Running for the uploads that hold the slots, Drives is `resolveDriveForAccount` with its cache, Login is `AuthUser` and
--   `authenticateUser`, with Argon2id's verification and the resolved drive as arguments. Uploads is
--   `handleUploadOpen`, VirtualFile is `OpenFile`, Writing is `uploadWriter.Write`, Closing is
--   `uploadWriter.Close` with `commitToWebDAV`, and Stor is an open, its writes and its close in a
--   row; they call the models of the transfer manager, the slots, the spool and the WebDAV client.
--   Driver is `NewBridgeDriver` and a login over its drives, its Graph client and its cache.
-- - Http: pkg/http. Auth is `authenticate`, Health the checks of oCIS, WebDAV and the spool, Server
--   the endpoints with `middleware`, the cache of the checks, `Run` and `Stop`, Json `escapeJSON`.
--   The requests, the file system and the clock are parameters, and an endpoint answers one request.
-- - Graph: Resolver is `ResolveTarget` of pkg/graph/resolver.go, Client pkg/graph/client.go over the
--   SDK's calls.
-- - Server: `New` of pkg/server/server.go. HashPassword: cmd/hash-password/main.go. Observability: the
--   levels of pkg/observability, and which messages pass them.
-- - Tests: runs on concrete inputs.
--
-- Bounds and fuel. Sizes are uint64 or int64: sums that can wrap around are written with the wrap.
-- The recursion over parent directories runs on fuel, the length of the path and one, since each
-- parent is shorter; the rename search has the 100 rounds of the source and the upload its three
-- attempts. Printing a number runs on fuel, the number itself and one.
--
-- Not modelled: the spool's monitor, the YAML decoder, the Prometheus registry and the metrics of
-- uploads, net/http's serving, slog's output, `Run` of the service with its signals, and the file
-- system methods that only answer the FTP library. Concurrent calls are steps in some order, and a
-- step that reads the clock several times reads it once here, but for the health checks, which read it
-- before and after.
pub mod Prelude
pub mod Go
pub mod Transfer
pub mod Errors
pub mod Spool
pub mod Config
pub mod Webdav
pub mod Ftp
pub mod Http
pub mod Graph
pub mod Server
pub mod HashPassword
pub mod Observability
pub mod Tests
