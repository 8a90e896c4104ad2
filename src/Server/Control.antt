-- ===== src/Server/Control.antt =====
-- `control` and `status` of src/clipboard/secure_transfer.rs.
pub mod Commands
pub mod Machine
pub mod Replay
use clip_ferry.Common.{
  ℕ, ◌+◌, Bool, true, false, Option, none, some, List, ltb, leb, ◌==◌, if◌then◌else◌, ◌&&◌, bytes,
}
use clip_ferry.Common.Map.{modify}
use clip_ferry.Common.Result.{Result, ok, err}
use clip_ferry.Wire.Code.{
  Opcode, WireResult, ResponseStatus, RemoteTransferState, running, paused, completed, replay,
  invalid, opcode_as_u16, pause, resume, cancel, complete,
}
use clip_ferry.Wire.Message.{TransferCredentials, TransferStatus}
use clip_ferry.Server.State.{
  ServerState, TransferSession, TransferInner, Moment, M, ◌>>=◌, ◌>>◌, pure, fail, get_state,
  update, count_replayed, count_cancelled, is_active, status_of,
}
use clip_ferry.Server.Peers.{authenticated_session}

-- `inner.last_control_opcode == Some(opcode)`
unfoldable pub is_last_opcode : Option Opcode → Opcode → Bool
unfolding opcode_as_u16
is_last_opcode none o = false
is_last_opcode (some p) o = opcode_as_u16 p == opcode_as_u16 o

-- The four opcodes that the `match` of `control` takes.
unfoldable pub is_control : Opcode → Bool
is_control pause = true
is_control resume = true
is_control cancel = true
is_control complete = true
is_control o = false

-- Their effect on the state.
unfoldable pub next_state : Opcode → RemoteTransferState → RemoteTransferState
next_state pause running = paused
next_state resume paused = running
next_state cancel running = RemoteTransferState.cancelled
next_state cancel paused = RemoteTransferState.cancelled
next_state complete running = completed
next_state o s = s

-- How many transfers the opcode cancels.
unfoldable pub cancels : Opcode → RemoteTransferState → ℕ
unfolding is_active
cancels cancel s = if is_active s then 1 else 0
cancels o s = 0

abbrev pub accept : ℕ → Opcode → TransferInner → TransferInner
accept sequence opcode i = record i {
  last_control_sequence = sequence;
  last_control_opcode = some opcode;
}

abbrev pub set_inner : (TransferInner → TransferInner) → TransferSession → TransferSession
set_inner f t = record t { inner = f t.inner }

abbrev pub change_session : List ℕ → (TransferInner → TransferInner) → ServerState → ServerState
change_session id f s = record s { transfers = modify id (set_inner f) s.transfers }

-- `control` on an authenticated session.
unfoldable pub control_session : ℕ → Opcode → TransferSession → M TransferStatus
control_session sequence opcode t =
    let i = t.inner in
    if (sequence == i.last_control_sequence) && is_last_opcode i.last_control_opcode opcode
    then pure (status_of i)
    else if leb sequence i.last_control_sequence
    then (do update count_replayed; fail replay)
    else if is_control opcode
    then (do
      let next = λ (j : TransferInner). record (accept sequence opcode j) {
        state = next_state opcode j.state;
      }
      update (change_session t.transfer_id next)
      update (count_cancelled (cancels opcode i.state))
      pure (status_of (next i)))
    else (do update (change_session t.transfer_id (accept sequence opcode)); fail invalid)

unfoldable pub control : Moment → List ℕ → TransferCredentials → ℕ → Opcode → M TransferStatus
control m peer c sequence opcode = do
  t ← authenticated_session m peer c
  control_session sequence opcode t

unfoldable pub status : Moment → List ℕ → TransferCredentials → M TransferStatus
status m peer c = do t ← authenticated_session m peer c; pure (status_of t.inner)
