-- ===== src/Lib.antt =====
-- A model of the proxy in front of a Makera CNC machine (Go, under internal/).
--
-- The proxy keeps a catalog of the files on the machine's SD card and a durable queue of jobs (store). The
-- sync engine (synceng) drains the queue: it attempts each job through the arbiter (session), which owns
-- the one connection to the machine (client), lets an operation run only while the machine is idle (machine), and
-- gives the connection up when a controller attaches. On the wire everything is a frame with a checksum
-- (protocol). Which paths may enter the catalog is decided by filepolicy. An operator's uploads, deletes and
-- renames reach the catalog and the queue through service. While a controller is attached, relay passes its frames
-- on and lends the machine to the proxy between them; gcodelog keeps the last lines of the traffic,
-- attention the events that need a human, and runhistory the runs of the machine.
--
-- Store: internal/store/types.go and store.go. Store.Batch and Store.Jobs are the methods of Batch, on the
--   catalog and on the queue; Store.Commit is the batch with its snapshot, the flush to disk and the
--   subscribers, Commit.Opening is Open, Snapshot and Restore; Store.Methods is the methods of Store; Store.Ops names the
--   calls of a batch as data. Invariant, Calls, Transactions, Durability, Lifecycle, Transitions, Pruning,
--   Restored and Discarding hold proofs. Store.Catalog is ListEntries.
-- Engine: internal/synceng/engine.go and reconcile.go. Engine is the settings, shouldAttempt and its
--   backoff; Engine.Execute is execute, Engine.Record is runJob and the recording of outcomes, Engine.Drain
--   is drain. Backoff, Ordering, Strict, Settling, Settled, Stale and Recovery hold proofs.
--   Engine.Reconcile and its child Listing are the reconciliation with the machine's listing, with what
--   others write between its batches, and Engine.Startup the preparation and validation of the cache; their
--   children hold proofs.
-- Protocol: internal/protocol/crc.go and the encoding of frame.go; Protocol.Scanner is its Scanner.
--   Progress, RoundTrip and Checksum hold proofs. Protocol.Listing is a row of
--   internal/protocol/listing.go, and Protocol.Parsing what it and play_status.go parse. Protocol.Escape,
--   Gcode and Paused are parts of internal/protocol/commands.go: the commands with their escaping, the
--   classification of console lines and CanRunWhilePaused. Arguments holds proofs.
-- Client: internal/client/conn.go. Client is readFrame, writeFrame and the loop over frames that the
--   methods share; Client.Transfer is Upload and Transfer.Download is Download, Client.Commands the
--   management and console commands, Client.Queries the queries. Answering says what a machine answers;
--   Loops, Packets, Phases, Fetched, Completion, Answers and Fresh hold proofs.
-- Machine: the state, its gate and the tracker of internal/machine/state.go; Machine.Halts is the reasons
--   of a halt and Machine.Status is ParseStatusPayload; Reported holds a proof.
-- Session: the arbiter of internal/session/arbiter.go, one function for each section under its mutex, and
--   errors.go; Session.Gate is WithMachine, with what reports do to the tracker between its reads. Idle and Sockets hold proofs; Sockets interleaves the sections.
-- Relay: the multiplexer of internal/relay/mux.go, one function for each section under its mutex;
--   Relay.Injection is the transport of a window; Relay.Window interleaves the sections with the writes of the
--   pumps of relay.go, Relay.Feed is a window as its owner sees it, and Relay.Download is
--   internal/relay/download_cache.go. Queueing, Order, Diverting, Replies and Packets hold proofs.
-- Gcodelog: internal/gcodelog/gcodelog.go; Recent holds the abstract log and the proof.
-- Attention: internal/attention/attention.go; Observing has the calls; Marks, Writes and Episodes hold
--   proofs.
-- Runhistory: internal/runhistory/runhistory.go; Runs has the calls on runs; Halted and Bounds hold proofs.
--   The floating-point numbers of a report are tokens in both.
-- Service: the operations on files of internal/service/service.go; Operations is retry, discard, rename and
--   mkdir, Service.Files is the replacement of a cache file, Upload and Rename, Service.Gcode what
--   SendGcode does on the machine's connection; Service.Gcode.Returns, Deleting, Staging, Recording and Uploading hold
--   proofs.
-- Filepolicy: internal/filepolicy/junk.go. Base is shared: text, lists, association lists, tests.
-- Examples: sample data, and each theorem applied to it.
--
-- Text is a list of bytes; times, sizes and ids are natural numbers, a time before the epoch being left out;
-- int64 and uint16 arithmetic that can wrap is written modulo 2 ^ 64 and 2 ^ 16. The map of entries is an
-- association list with each key once. JSON encoding succeeds or fails as a whole, decoding is a parameter of
-- Open, and each call of the file system succeeds or fails as an `Io` says; the snapshot of a batch and its
-- restoration are copies of values, so that what pointers share is not modelled; what a crash does to unsynced
-- data is not modelled. The clock stands still within one batch and one pass.
-- The machine is outside the program: a `Reply` says how an attempt ends, with the calls that other parts make
-- on the store while the machine works, an `Env` what WithMachine meets, and a listing and the answers to md5sum
-- are lists. The texts of errors, path.Clean, path.Base, MD5 and the names of cache files are parameters; a
-- `FileIo` says how the calls on cache files end, removals among them. replaceModel is modelled with Restore,
-- and is none of the calls of `Store.Ops`. A socket is closed with the section that drops it.
-- The scanner's loop has fuel: one more than the length of the buffer, which is enough since each round that
-- goes on drops a byte.
-- The calls of Read and Write on a connection end as a list says, and nothing comes behind its end; a deadline
-- that passes is an error of a read. So no bound in time is shown for a loop: that the machine falls silent, or
-- a deadline passes, is the end of the list. A loop over frames has one more round of fuel than there are frames
-- to come, which is enough since each round reads one. The times of a listing and the floating-point numbers of
-- a console line or a report are read by parameters. Letters and spaces are those of ASCII.
--
-- Not modelled: the operator's settings and the execution context of the store; the compressed upload and the
-- periodic loops of the engine; the raw text and the field map of a status report; options and dialing of the
-- connection; dialing and logging in the relay; jog leases and polling in the arbiter, and the jog sessions,
-- whose motion is computed on floating-point numbers; ranged uploads, backups and the commands to the machine in
-- the service but for SendGcode; the HTTP, WebDAV, tray and discovery services, which are glue around these
-- parts.
pub mod Base
pub mod Client
pub mod Store
pub mod Filepolicy
pub mod Engine
pub mod Protocol
pub mod Machine
pub mod Session
pub mod Relay
pub mod Gcodelog
pub mod Attention
pub mod Runhistory
pub mod Service
pub mod Examples
