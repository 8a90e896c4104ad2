-- ===== src/Client/Source.antt =====
-- The operations of `SecureRemoteSource` of src/clipboard/secure_transfer.rs: one file of the offer as a
-- source that a virtual stream reads.
pub mod Reads
pub mod Steps
use clip_ferry.Common.{
  ℕ, zero, suc, ◌+◌, min, Bool, true, false, Option, none, some, List, [], ◌∷◌, length, leb, ltb,
  ◌==◌, ◌&&◌, not, if◌then◌else◌,
}
use clip_ferry.Common.Result.{Result, IoError, IoResult, ok, err, interrupted, not_connected}
use clip_ferry.Wire.Code.{Opcode, pause, cancel, complete, opcode_as_u16}
use clip_ferry.Wire.Message.{TransferCredentials, TransferStatus, max_secure_range_bytes}
use clip_ferry.Clipboard.Source.{HresultError}
use clip_ferry.Server.Read.{is_paused}
use clip_ferry.Client.Group.{
  Group, SecureRemoteSource, io_to_windows_error, S, ◌>>=◌, ◌>>◌, and_then, pure, fail, call, get,
  world, put, ReadStop, failed, still_waiting, in_windows, next_sequence, ignore, take_some,
}

unfoldable pub has_started : SecureRemoteSource → Bool
has_started r = elim r.transfer [ some c ↦ true | none ↦ false ]

unfoldable pub is_pause : TransferStatus → List ℕ → Bool
is_pause status bytes = is_paused status.state && (length bytes == 0)

module _ {W : Type 0} (g : Group W) where
  -- The group's signals, on a transfer that has just begun.
  unfoldable pub after_begin : TransferCredentials → W → S W IoError TransferCredentials
  after_begin c w =
      if g.group_cancelled w
      then (do
        sequence ← next_sequence
        ignore (g.control false c sequence cancel)
        fail interrupted)
      else if g.group_paused w
      then (do sequence ← next_sequence; status ← call (g.control false c sequence pause); pure c)
      else pure c

  -- A transfer is begun with the first call, and remembered.
  unfoldable pub credentials_or_begin : Option TransferCredentials → S W IoError TransferCredentials
  credentials_or_begin (some c) = pure c
  credentials_or_begin none = do
    c ← call (g.begin_transfer)
    put (λ r. record r { transfer = some c })
    w ← world
    after_begin c w

  unfoldable pub credentials : S W IoError TransferCredentials
  credentials = do r ← get; credentials_or_begin r.transfer

  unfoldable pub send_control : Opcode → S W IoError TransferStatus
  send_control opcode = do
    sequence ← next_sequence
    c ← credentials
    call (g.control (not (opcode_as_u16 opcode == opcode_as_u16 cancel)) c sequence opcode)

  unfoldable pub source_status : S W IoError TransferStatus
  source_status = do c ← credentials; call (g.status c)

  unfoldable pub send_complete : S W IoError TransferStatus
  send_complete = do
    status ← send_control complete
    put (λ r. record r { completion_sent = true })
    pure status

  unfoldable pub complete_source : S W IoError TransferStatus
  complete_source = do r ← get; if r.completion_sent then source_status else send_complete

  unfoldable pub cancel_local_first : S W IoError TransferStatus
  cancel_local_first = do
    r ← get
    c ← take_some not_connected r.transfer
    sequence ← next_sequence
    call (g.control_once c sequence cancel)

  abbrev pub sleep_a_while : {E : Type 0} → S W E (Unit {0})
  sleep_a_while r w = (r, g.sleep w, ok tt)

  -- The first loop of `read_at`, on the number of its sleeps.
  unfoldable pub wait_for_group : ℕ → S W ReadStop (Unit {0})
  wait_for_group zero r w =
      if g.group_cancelled w
      then (r, w, err (failed HresultError.error_cancelled))
      else (if g.group_paused w then (r, w, err still_waiting) else (r, w, ok tt))
  wait_for_group (suc rounds) r w =
      let rest = wait_for_group rounds r (g.sleep w) in
      if g.group_cancelled w
      then (r, w, err (failed HresultError.error_cancelled))
      else (if g.group_paused w then rest else (r, w, ok tt))

  -- The second loop of `read_at`, on the number of its requests.
  unfoldable pub read_range_loop : ℕ → TransferCredentials → ℕ → ℕ → S W ReadStop (List ℕ)
  read_range_loop zero c offset requested = fail still_waiting
  read_range_loop (suc rounds) c offset requested = do
    (status, bytes) ← in_windows (call (g.read_range c offset requested))
    (if is_pause status bytes
        then (do sleep_a_while; read_range_loop rounds c offset requested)
        else pure bytes)

  -- `Complete` has been sent, or `completion_sent` is taken back.
  unfoldable pub completed_or_not : W × IoResult TransferStatus → S W ReadStop (Unit {0})
  completed_or_not (w', ok status) r w = (r, w', ok tt)
  completed_or_not (w', err e) r w =
      (record r { completion_sent = false }, w', err (failed (io_to_windows_error e)))

  unfoldable pub send_completion : TransferCredentials → S W ReadStop (Unit {0})
  send_completion c = do
    put (λ r. record r { completion_sent = true })
    sequence ← next_sequence
    w ← world
    completed_or_not (g.control true c sequence complete w)

  -- No bytes are an error before the end of the file, and its completion behind it.
  unfoldable pub check_end : TransferCredentials → ℕ → List ℕ → S W ReadStop (Unit {0})
  check_end c offset bytes r w =
      if (length bytes == 0) && ltb offset r.size
      then (r, w, err (failed HresultError.error_read_fault))
      else (if (length bytes == 0) && (leb r.size offset && not r.completion_sent)
          then send_completion c r w
          else (r, w, ok tt))

  unfoldable pub give_bytes : TransferCredentials → ℕ → List ℕ → S W ReadStop (List ℕ)
  give_bytes c offset bytes = do
    check_end c offset bytes
    put (λ r. record r { bytes_read = r.bytes_read + length bytes })
    pure bytes

  unfoldable pub read_transfer : ℕ → ℕ → ℕ → TransferCredentials → S W ReadStop (List ℕ)
  read_transfer rounds offset buffer c = do
    bytes ← read_range_loop rounds c offset (min buffer max_secure_range_bytes)
    give_bytes c offset bytes

  unfoldable pub begin_read : ℕ → ℕ → ℕ → S W ReadStop (List ℕ)
  begin_read rounds offset buffer = do
    put (λ r. record r { read_calls = r.read_calls + 1 })
    c ← in_windows credentials
    read_transfer rounds offset buffer c

  unfoldable pub read_started : ℕ → ℕ → ℕ → S W ReadStop (List ℕ)
  read_started rounds offset buffer = do wait_for_group rounds; begin_read rounds offset buffer

  -- `read_at` on a buffer of the given length.
  unfoldable pub read_at : ℕ → ℕ → ℕ → S W ReadStop (List ℕ)
  read_at rounds offset buffer = if buffer == 0 then pure [] else read_started rounds offset buffer
