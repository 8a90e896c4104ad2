-- ===== src/Client/Group.antt =====
-- The state of a `SecureRemoteSource` of src/clipboard/secure_transfer.rs and the monad of its
-- operations. The client that it calls, and the two signals that it shares with its group, are a
-- `Group` over the world: everything outside the source. Its counters of calls and bytes are
-- unbounded.
use clip_ferry.Common.{ℕ, ◌+◌, ◌%◌, ◌^◌, Bool, Option, none, some, List}
use clip_ferry.Common.Result.{
  Result, IoError, IoResult, ok, err, interrupted, timed_out, would_block, permission_denied,
  invalid_data, invalid_input, unexpected_eof, connection_aborted, connection_reset, broken_pipe,
  not_connected, other,
}
use clip_ferry.Wire.Code.{Opcode}
use clip_ferry.Wire.Message.{TransferCredentials, TransferStatus}
use clip_ferry.Clipboard.Source.{HresultError}

-- What the source asks of its client, each call with what it does to the world, and what may happen
-- while it sleeps. The flag of `control` says whether the group's cancellation ends it early.
pub record Group (W : Type 0) : Type 0 where
  pub group_paused : W → Bool
  pub group_cancelled : W → Bool
  pub sleep : W → W
  pub begin_transfer : W → W × IoResult TransferCredentials
  pub read_range : TransferCredentials → ℕ → ℕ → W → W × IoResult (TransferStatus × List ℕ)
  pub control : Bool → TransferCredentials → ℕ → Opcode → W → W × IoResult TransferStatus
  pub control_once : TransferCredentials → ℕ → Opcode → W → W × IoResult TransferStatus
  pub status : TransferCredentials → W → W × IoResult TransferStatus

-- `size` is that of the entry's descriptor.
pub record SecureRemoteSource : Type 0 where
  pub size : ℕ
  pub transfer : Option TransferCredentials
  pub next_control_sequence : ℕ
  pub completion_sent : Bool
  pub read_calls : ℕ
  pub bytes_read : ℕ

unfoldable pub io_to_windows_error : IoError → HresultError
io_to_windows_error interrupted = HresultError.error_cancelled
io_to_windows_error timed_out = HresultError.error_timeout
io_to_windows_error would_block = HresultError.error_timeout
io_to_windows_error permission_denied = HresultError.e_accessdenied
io_to_windows_error invalid_data = HresultError.e_accessdenied
io_to_windows_error invalid_input = HresultError.e_invalidarg
io_to_windows_error unexpected_eof = HresultError.error_read_fault
io_to_windows_error connection_aborted = HresultError.error_read_fault
io_to_windows_error connection_reset = HresultError.error_read_fault
io_to_windows_error broken_pipe = HresultError.error_read_fault
io_to_windows_error not_connected = HresultError.error_read_fault
io_to_windows_error other = HresultError.error_read_fault

-- An operation of a source that ends with a value or an error; both keep the changes made.
abbrev pub S : Type 0 → Type 0 → Type 0 → Type 0
S W E A = SecureRemoteSource → W → SecureRemoteSource × W × Result E A

abbrev pub and_then :
    {W E A B : Type 0}
    → SecureRemoteSource × W × Result E A
    → (A → S W E B)
    → SecureRemoteSource × W × Result E B
and_then (r, w, ok a) f = f a r w
and_then (r, w, err e) f = (r, w, err e)

infixl 5 ◌>>=◌ ◌>>◌
abbrev pub ◌>>=◌ : {W E A B : Type 0} → S W E A → (A → S W E B) → S W E B
◌>>=◌ m f r w = and_then (m r w) f

abbrev pub ◌>>◌ : {W E B : Type 0} → S W E (Unit {0}) → S W E B → S W E B
m >> k = m >>= λ _. k

abbrev pub pure : {W E A : Type 0} → A → S W E A
pure a r w = (r, w, ok a)

abbrev pub fail : {W E A : Type 0} → E → S W E A
fail e r w = (r, w, err e)

-- A call of the client.
abbrev pub call : {W A : Type 0} → (W → W × IoResult A) → S W IoError A
call f r w = (r, (f w).0, (f w).1)

abbrev pub get : {W E : Type 0} → S W E SecureRemoteSource
get r w = (r, w, ok r)

abbrev pub world : {W E : Type 0} → S W E W
world r w = (r, w, ok w)

abbrev pub put : {W E : Type 0} → (SecureRemoteSource → SecureRemoteSource) → S W E (Unit {0})
put f r w = (f r, w, ok tt)

-- How a read ends without bytes: an error for the stream, or still waiting where the rounds given
-- run out.
pub data ReadStop : Type 0 where
  failed : HresultError → ReadStop
  still_waiting : ReadStop

abbrev pub read_error : {A : Type 0} → IoResult A → Result ReadStop A
read_error (ok a) = ok a
read_error (err e) = err (failed (io_to_windows_error e))

abbrev pub in_windows : {W A : Type 0} → S W IoError A → S W ReadStop A
in_windows m r w = let (r', w', a) = m r w in (r', w', read_error a)

-- `next_control_sequence.fetch_add(1, Relaxed)`
abbrev pub next_sequence : {W E : Type 0} → S W E ℕ
next_sequence r w = (
  record r { next_control_sequence = (r.next_control_sequence + 1) % 2 ^ 64 },
  w,
  ok r.next_control_sequence,
)

-- `let _ = call;`
abbrev pub ignore : {W A E : Type 0} → (W → W × IoResult A) → S W E (Unit {0})
ignore f r w = (r, (f w).0, ok tt)

-- `option.ok_or(e)?`
abbrev pub take_some : {W A E : Type 0} → E → Option A → S W E A
take_some e none = fail e
take_some e (some a) = pure a
