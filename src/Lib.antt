-- ===== src/Lib.antt =====
-- Digital Ghost: a verification library for the daemon that captures the screen, keeps private
-- windows out, and stores what it saw encrypted on the machine.
--
-- The program and its model. A capture loop asks the privacy gate before each frame and pushes the
-- frame into a queue; the inference loop takes frames out of it, waits for the resource governor,
-- asks a vision model on the machine, scores the answer, and writes a memory node to the encrypted
-- store; a retention sweep deletes old nodes. An HTTP interface on the machine searches the store, asks
-- the model about it, and deletes ranges of it. The daemon asks for consent at its start.
--   Filter.Blocklist   internal/filter/blocklist.go: Check (check, check_compiled), compile,
--                      mergeWithDefaults, hardcodedDefaults, loadFromFile, watchFile, NewBlocklist
--   Capture.Gate       internal/capture/privacy.go: Check, Pause, Resume over the blocklist
--   Capture.Windows    internal/capture/capture_windows.go: what the gate is told of the windows
--                      (queryWindowContextImpl, queryVisibleBackgroundProcessesImpl, extractBrowserURL)
--   Capture.Gdi        internal/capture/capture_windows.go: captureGDI, releaseHandles; what
--                      the deletions of Windows answer is not looked at, there and here
--   Capture.Dxgi       internal/capture/dxgi_windows.go: OpenDXGISession, CaptureFrame, Close, and the
--                      capturer that opens a lost session again
--   Capture.Image      internal/capture/capture_windows.go: maskRect
--   Capture.Downscale  internal/capture/frame.go: DownscaleForQueue, nearestNeighbor, frameDuration
--   Capture.Monitor    internal/capture/capture_windows.go: captureFrame, and run as ticks; IsDuplicate
--                      of internal/capture/frame.go
--   Filter.Classifier  internal/filter/classifier.go: Classify and its word tables
--   Filter.Engagement  internal/filter/engagement.go: EngagementScore
--   Inference.Queue    internal/inference/queue.go: Push, Pop (try_pop, after_round), Len, FillRatio
--   Inference.Throttle internal/inference/throttle.go: NewGovernor, Acquire, refillLoop, DrainBucket,
--                      updateMetrics as the steps of a relation
--   Inference.Client   internal/inference/ollama.go: VerifyModel, and the loop of attempts of Infer
--   Inference.Prompt   internal/inference/ollama.go: buildInferencePrompt and its texts
--   Inference.Answer   internal/inference/ollama.go: parseDescriptionAndTags, sanitizeDescription
--   Inference.Encoding internal/inference/ollama.go: encodeFrameForVLM, downscaleNearest
--   Inference.Requests internal/inference/ollama.go: Infer (infer_frame), doRequest, Generate, Embed,
--                      Ping
--   Coherence          internal/graph/coherence.go: NewChecker, Check
--   Pipeline           cmd/digitalghost/main.go: runInferenceLoop (process is a round of it)
--   Daemon             cmd/digitalghost/main.go: run up to the goroutines (start)
--   Config             internal/config/config.go: Defaults, validate, Load, expandHome
--   Tray.Consent       internal/tray/consent.go: IsConsentGranted, RequestConsent, RevokeConsent
--   Storage.Encrypt    internal/storage/encrypt.go: Seal, Open, computeHMAC
--   Storage.JsonStore  internal/storage/jsonstore.go: the index (Index), the records, the
--                      write-ahead log and the migration (Records)
--   Storage.VectorStore  internal/storage/lancedb.go: Write, Read, Delete, DeleteRange, Timeline
--   Storage.Similarity  internal/storage/jsonstore.go: NearestNeighbors, cosineSimilarity; and
--                      CosineSimilarity of internal/graph/coherence.go
--   Storage.Keychain   internal/storage/keychain.go: NewKeyManager, DeleteKey
--   Storage.Retention  internal/storage/retention.go: Sweep, RunScheduled, WipeAll, nextSweepTime,
--                      secureDeleteFile
--   Api                internal/api/server.go: New and its routes (Routing), handleQuery (Search),
--                      handleChat (Chat), handleDelete (Deletion), handleTimeline (Timeline)
--   Storage.Time, Storage.Hex  time.Time and encoding/hex as the store uses them
--   Prelude            texts as lists of bytes, results, lists over the native numbers, Go's int
-- Each module has its theorems in child modules, and their examples in a child module Tests.
--
-- State. A text is a list of bytes. An operation that changes state takes the state and returns the
-- new one; what the system answers to it (a random nonce, a write, a query) is in a record with a
-- name that ends in Env. Where goroutines interleave (queue, governor), the steps are an indexed data
-- type, and Reach is what some steps lead to. The functions are total by recursion on their data, but
-- for the digits of a number, with its successor as fuel, and the passes over a file that is deleted,
-- with its size as fuel; each digit and each chunk takes one of it. A float is an element of an
-- abstract type with the operations that the code uses.
-- An int that may be negative is a ℤ; UnixNano and the backoff keep their 64-bit patterns.
--
-- Arguments. regexp, yaml, encoding/json, url.Parse, filepath, AES-GCM, HMAC, SHA-256, PBKDF2, the
-- keychain, net/http, Ollama, goimagehash, the Unicode tables of strings.ToLower, Windows and the rest of
-- the operating system are arguments of the definitions. What a theorem needs of them is a hypothesis:
-- IsCrypto (an HMAC has 32 bytes, what was sealed opens), IsCodec (an index that was printed is parsed
-- back), IsPbkdf2, IsOrder (floats that are no NaN).
--
-- Bounds. Times are nanoseconds since year 1, and IsNano are those of the years 1678 to 2262, whose
-- UnixNano is an int64. A write to the log happens whole or not at all. Days and 2 AM are those of a
-- zone whose clock is not changed in between.
--
-- Not modelled: the COM calls of UI Automation (internal/capture/uia_windows.go), whose results are
-- arguments; the capture with X11; the tray icon and the dialog of each platform; the locking of memory
-- pages; the redirects of http.ServeMux; and in main.go the commands, the shutdown and the bridge
-- between the capture and the queue. Logging is left out.
pub mod Prelude
pub mod Filter
pub mod Capture
pub mod Inference
pub mod Storage
pub mod Tray
pub mod Config
pub mod Coherence
pub mod Pipeline
pub mod Api
pub mod Daemon
