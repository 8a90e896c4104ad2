-- ===== src/Wire/Code.antt =====
-- The one-byte and two-byte codes of the secure protocol: `Opcode`, `ResponseStatus` and
-- `RemoteTransferState` of src/clipboard/secure_transfer.rs.
use Prim.Native.Nat.{bit_or}
use clip_ferry.Common.{ℕ, ◌≡◌, ◌↔◌, refl, ◌==◌, if◌then◌else◌, arith, ◌+◌}
use clip_ferry.Common.Result.{Result, IoError, IoResult, err, invalid_data}

pub data Opcode : Type 0 where
  hello get_offer begin_transfer read_range pause resume cancel status complete : Opcode

-- `opcode as u16`
unfoldable pub opcode_as_u16 : Opcode → ℕ
opcode_as_u16 hello = 1
opcode_as_u16 get_offer = 2
opcode_as_u16 begin_transfer = 3
opcode_as_u16 read_range = 4
opcode_as_u16 pause = 5
opcode_as_u16 resume = 6
opcode_as_u16 cancel = 7
opcode_as_u16 status = 8
opcode_as_u16 complete = 9

unfoldable pub opcode_try_from : ℕ → IoResult Opcode
opcode_try_from value =
    if value == 1
    then Result.ok hello
    else if value == 2
    then Result.ok get_offer
    else if value == 3
    then Result.ok begin_transfer
    else if value == 4
    then Result.ok read_range
    else if value == 5
    then Result.ok pause
    else if value == 6
    then Result.ok resume
    else if value == 7
    then Result.ok cancel
    else if value == 8
    then Result.ok status
    else if value == 9
    then Result.ok complete
    else err invalid_data

abbrev pub response_bit : ℕ
response_bit = 0x8000

unfoldable pub response_opcode : Opcode → ℕ
unfolding opcode_as_u16
response_opcode opcode = bit_or (opcode_as_u16 opcode) response_bit

pub data ResponseStatus : Type 0 where
  ok invalid denied expired replay busy cancelled timeout source_changed internal : ResponseStatus

abbrev pub WireResult : Type 0 → Type 0
WireResult = Result ResponseStatus

unfoldable pub encode_response_status : ResponseStatus → ℕ
encode_response_status ResponseStatus.ok = 0
encode_response_status invalid = 1
encode_response_status denied = 2
encode_response_status expired = 3
encode_response_status replay = 4
encode_response_status busy = 5
encode_response_status cancelled = 6
encode_response_status timeout = 7
encode_response_status source_changed = 8
encode_response_status internal = 9

unfoldable pub decode_response_status : ℕ → IoResult ResponseStatus
decode_response_status value =
    if value == 0
    then Result.ok ResponseStatus.ok
    else if value == 1
    then Result.ok invalid
    else if value == 2
    then Result.ok denied
    else if value == 3
    then Result.ok expired
    else if value == 4
    then Result.ok replay
    else if value == 5
    then Result.ok busy
    else if value == 6
    then Result.ok cancelled
    else if value == 7
    then Result.ok timeout
    else if value == 8
    then Result.ok source_changed
    else if value == 9
    then Result.ok internal
    else err invalid_data

-- The kind of the error that the client makes of a status.
unfoldable pub status_error : ResponseStatus → IoError
status_error invalid = invalid_data
status_error denied = IoError.permission_denied
status_error expired = IoError.timed_out
status_error replay = IoError.permission_denied
status_error busy = IoError.would_block
status_error cancelled = IoError.interrupted
status_error timeout = IoError.timed_out
status_error source_changed = invalid_data
status_error internal = IoError.other
status_error ResponseStatus.ok = IoError.other

pub data RemoteTransferState : Type 0 where
  running paused cancelled completed : RemoteTransferState

unfoldable pub encode_state : RemoteTransferState → ℕ
encode_state running = 0
encode_state paused = 1
encode_state RemoteTransferState.cancelled = 2
encode_state completed = 3

unfoldable pub decode_state : ℕ → IoResult RemoteTransferState
decode_state value =
    if value == 0
    then Result.ok running
    else if value == 1
    then Result.ok paused
    else if value == 2
    then Result.ok RemoteTransferState.cancelled
    else if value == 3
    then Result.ok completed
    else err invalid_data

-- A code is accepted exactly as the operation that writes it.
pub opcode_try_from_iff :
    (v : ℕ) (o : Opcode) → (opcode_try_from v ≡ Result.ok o) ↔ (v ≡ opcode_as_u16 o)
unfolding opcode_try_from opcode_as_u16
opcode_try_from_iff v o = (λ h. ground arith, λ h. ground arith)

pub decode_response_status_iff :
    (v : ℕ) (s : ResponseStatus)
    → (decode_response_status v ≡ Result.ok s) ↔ (v ≡ encode_response_status s)
unfolding decode_response_status encode_response_status
decode_response_status_iff v s = (λ h. ground arith, λ h. ground arith)

pub decode_state_iff :
    (v : ℕ) (s : RemoteTransferState) → (decode_state v ≡ Result.ok s) ↔ (v ≡ encode_state s)
unfolding decode_state encode_state
decode_state_iff v s = (λ h. ground arith, λ h. ground arith)

pub response_opcode_lem : (o : Opcode) → response_opcode o ≡ opcode_as_u16 o + 0x8000
unfolding response_opcode
response_opcode_lem hello = refl
response_opcode_lem _ = refl

-- The code of a response is the code of no request, and it names one request.
pub response_opcode_fresh :
    (o p : Opcode)
    → (opcode_try_from (response_opcode o) ≡ err invalid_data)
      × (response_opcode o ≡ response_opcode p → o ≡ p)
unfolding opcode_try_from opcode_as_u16
response_opcode_fresh o p = (
  ground (arith, response_opcode_lem o),
  λ e. ground (arith, response_opcode_lem o, response_opcode_lem p),
)
