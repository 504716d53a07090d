-- ===== src/Lib.antt =====
-- A verification library for backchannel, a self-hosted chat hub (code/*.go).
--
-- A hub keeps accounts, channels, messages and files. Connections send frames, each of which is
-- handled under one lock, so an operation of the hub is a function from the state of the hub, a record,
-- to the next; the clock is read once, as the argument `now`, in Unix milliseconds. A frame is checked
-- against the ranks of its user, against rate limits and size limits, changes the state, and is fanned
-- out to the connections that are subscribed.
--
--   Prelude: lists, association lists for Go's maps, signed integers with the wrap-around of int64,
--   texts as lists of bytes, decimal numbers. `strings.ToLower`, `strings.EqualFold` and
--   `strings.TrimSpace` are modelled on ASCII.
--   State (code/store.go): the records of state.json. Rates, which are float64, are whole thousandths.
--   Frame (code/proto.go): the one record of the wire.
--   Perms (code/perms.go): `roleRank`, `need`, `can`, `canTarget`, `canSend`, `srvRank`, `rankIn` and
--   the checks on the server; Perms.Matrix and Perms.Targets prove their laws.
--   Limits (code/limits.go): Limits.Bucket for `bucket` and `limiter`, in units of which a token is
--   3,600,000,000, so that refills are exact; Limits.Expire for `parseExpire` and `fmtExpire`;
--   Limits.Rates for the limits of a user and the automatic mute.
--   Http: Http.Escape for `escape` and `unescape` and Http.Request for the reading of a request
--   (code/http_min.go); Http.Requester for `httpAuth`, Http.Upload for `upload` and Http.Serve for
--   `handleHTTP` (code/files.go). The stream is the list of its bytes. Reading headers runs on fuel, one
--   unit for each byte of the stream, of which every line takes one at least.
--   Names (code/main.go, code/auth.go): `sanitizeName`, `validName`, `guestID`.
--   Hub (code/hub.go, code/store.go): the state in memory, lookups by name, queues of frames, the audit
--   log. A pointer to a user or a channel is its id, and `set_chan` writes back what the source changes
--   through the pointer. Hub.Search is `sort.Search`, by its documented bisection: its fuel is the length
--   of the range, which each step shrinks.
--   Files (code/hub.go, code/files.go): reference counts, deletion, and the commit of an upload.
--   Auth (code/auth.go, code/hub.go): Auth.Password for `hashPassword` and `checkPassword`, Auth.Login
--   for `authenticate`; Auth itself has `finishAuth`, `userBlocked`, `newUserHashed` and `newSession`.
--   Connection (code/hub.go): `handleConn`, from the greeting to the dispatch of a frame.
--   Boot (code/store.go, code/hub.go): `loadOrInit`, `importV1History`, `loadAudit`, `indexFiles`.
--   Messages (code/hub.go, code/store.go, code/cmds.go): `post`, `tombstone`, the log and its loading,
--   unread counts, and the compaction of the log; Messages.Recovery, Messages.Compaction,
--   Messages.Loading and Messages.Fresh for what a start reads back.
--   Subs (code/hub.go): `subscribe`, `unsub`, `unsubUser` and the end of a connection.
--   Handlers (code/hub.go): the handlers of frames. Commands (code/cmds.go): the checks that commands
--   share; Commands.Channels, Commands.Members, Commands.Roles, Commands.Invites, Commands.Inviting,
--   Commands.Deletions, Commands.Encryption, Commands.Listings, Commands.Accounts and Commands.Server
--   with its children for the commands, and Commands.Dispatch for `handleCmd`.
--   Sweep (code/limits.go): `expireMessages` and `sweep`.
--   Tests: a small hub, and every theorem at concrete inputs.
--
-- What Go's standard library computes is a parameter: the record `Library` of Auth.Password for the
-- derivation of keys, base64, hashes and dates, the record `Outside` of Commands.Dispatch for the
-- numbers that `strconv.ParseFloat` reads and for texts that only print, and the function `found` of
-- Http.Serve for the file that `filepath.Glob` finds; what is drawn at random is an argument. Where
-- the source gives the lock back, to hash a password or to receive a file, `away` is what other
-- connections do to the hub meanwhile.
--
-- Not modelled: sockets, files on disk and JSON; cryptography; the client, its terminal and
-- clipboard; TLS and discovery. Numbers that only count up or hold a clock reading are natural
-- numbers without a bound; what is multiplied or shifted has the wrap-around of int64, but for rates and
-- the refills of token buckets, which are float64 in the source and exact here.
pub mod Prelude
pub mod State
pub mod Perms
pub mod Limits
pub mod Http
pub mod Names
pub mod Frame
pub mod Hub
pub mod Files
pub mod Messages
pub mod Subs
pub mod Handlers
pub mod Commands
pub mod Sweep
pub mod Auth
pub mod Connection
pub mod Boot
pub mod Tests
