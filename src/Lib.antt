-- ===== src/Lib.antt =====
-- ClipFerry carries files from one Windows machine to another through the clipboard. The offering
-- side keeps a server of transfer sessions; the receiving side asks it for byte ranges over framed
-- requests and shows the files to Explorer as virtual streams. This library models the protocol,
-- the server's state, and the objects that Explorer reads from.
--
-- The parts, and the files that model them:
-- - Wire: codes, frames and messages of src/clipboard/secure_transfer.rs. Wire/Code has `Opcode`,
--   `ResponseStatus` and `RemoteTransferState` with their encodings, Wire/Frame has `write_frame`,
--   `read_frame` and `read_frame_optional` over a list of bytes, Wire/Message has
--   `TransferCredentials`, `TransferStatus` and the payloads of the requests and responses, as the
--   client's functions build or read them and as the server's `encode_*_response` functions do.
-- - Server: `ServerState` of the same file. Server/Coverage is `RangeCoverage`, Server/State the
--   records and the monad of the operations, Server/Peers the checks of trust, credentials and
--   expiry (`ensure_peer_allowed`, `authenticated_session`, `cleanup_expired_sessions`),
--   Server/Begin is `begin_transfer`, Server/Control is `control` and `status`, Server/Read is
--   `read_range`. Server/Evolve says how a session may change in time. Server/Answers and
--   Server/Dispatch have what the server makes of the payload of each request (`encode_*_response`,
--   `dispatch_request`), Server/Connection is `handle_secure_connection`.
-- - Client: the receiving side of the same file. Client/Connection is one
--   `command` of `SecureOfferClient` with its connections, Client/Waits and Client/Recovery are
--   `SecureRecoveryPolicy`, `command_recovering`, `command_status_retry_once` and the waits that they
--   make, Client/Group and Client/Source are `SecureRemoteSource`, Client/Registry is
--   `RemoteTransferRegistry`.
-- - Offer: what is offered. Offer/Paths and Offer/Tree are the rules for names, paths and trees of
--   src/clipboard/data_object.rs (`validate_virtual_descriptor_tree`), Offer/Manifest is
--   `OfferManifest` of src/clipboard/secure_transfer.rs with its encoding and decoding.
-- - Clipboard: Clipboard/Source is `MemorySource` of src/clipboard/source.rs, Clipboard/Stream is
--   `VirtualStream` of src/clipboard/stream.rs, Clipboard/Transfer is `TransferControl` and
--   `GeneratedSource` of src/clipboard/transfer.rs, Clipboard/Formats is `FormatEnumerator` of
--   src/clipboard/format_enum.rs.
-- - Pairing: the hello (Pairing/Hello) and the exchange of decisions (Pairing/Confirm) of
--   src/pairing.rs.
-- - Discovery: the packets of src/discovery.rs; whether bytes are a label is a parameter.
-- - Store: the identity bundle and the records of trusted peers of src/device_store.rs, the text of a
--   fingerprint (Store/Fingerprint) of src/security.rs, the settings' text and the rule for endpoints
--   (Store/Settings) of src/app_settings.rs, and the lookup of a peer with the check of the settings
--   against it (Store/Peers).
-- - Common has the shared helpers: lists over the native numbers, bytes in big-endian order, maps
--   as association lists, and results. Tests runs the model at concrete inputs.
--
-- How the parts interact: a request arrives as a frame (Wire/Frame), its payload is read
-- (Wire/Message), an operation of the server runs on `ServerState` and its answer is encoded. The
-- operations share the session map; all but `read_range` are written as one step on the state, though
-- the code takes its locks one after the other. `read_range` lets go of the lock while it waits and
-- while it reads the source. What other threads do there is an argument, any function on the state
-- (`Turn` in Server/Read). A virtual stream reads through a `ReadAtSource`, of
-- which it relies on `Serves` (Clipboard/Source) alone.
-- A request is answered on a connection, one `Round` (Server/Dispatch) after the other, and the round
-- has all that comes from outside meanwhile. The client's recovery is written for any command, as a
-- change of a world with a result (Client/Recovery); Client/Recovery/Resend runs it against the server,
-- with what other connections do between the attempts as functions on the state; a remote source takes the client's calls as a
-- `Group` (Client/Group), and the registry commands sources through it. Offers and their trees are used
-- by both sides: the server encodes the manifest, the client decodes it and validates the tree.
--
-- Numbers are natural numbers. Sums that the program checks for overflow are compared with the
-- limit of their type. The counters of the metrics are unbounded here. Instants and durations count
-- nanoseconds. The clock, random bytes, the answer of the trust store and the file sources are
-- arguments of the operations.
--
-- Bounds and fuel: `fill` of Clipboard/Stream runs on as many rounds as bytes were asked for, and a
-- round that goes on has read a byte. The loops that wait (Server/Read, Clipboard/Transfer) run on
-- the list of wake-ups that they get. A connection runs on a list of rounds, the recovery on what
-- passes during each attempt, and a remote read on the number of its sleeps and requests; Results say
-- how many are enough where the program has a bound. A manifest has at most 4096 entries and 1 MiB.
--
-- Not modelled: sockets, TLS, threads and the listener; how a local file becomes an offer; the COM
-- data object and the clipboard's formats; the sockets and the TLS proof of pairing, the sockets
-- of discovery; the files of the device store and of the settings, and their protection; the
-- windows, the tray and the command line. Most of these are calls of the operating system. Lower
-- case, UTF-8, white space and the text of a socket address, which the standard library gives, are
-- parameters, and so is the fingerprint of a certificate. Poisoned locks do not occur, and
-- messages of errors are left out.
pub mod Common
pub mod Wire
pub mod Offer
pub mod Server
pub mod Client
pub mod Clipboard
pub mod Pairing
pub mod Discovery
pub mod Store
pub mod Tests
