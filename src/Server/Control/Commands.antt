-- ===== src/Server/Control/Commands.antt =====
-- What each control command does to the sessions of the server: `ServerState::control` of
-- src/clipboard/secure_transfer.rs, command by command.
use clip_ferry.Common.{ℕ, ◌≡◌, ◌≢◌, true, false, some, List, bytes}
use mathlib.Core.Option
use clip_ferry.Common.Map.{lookup}
use clip_ferry.Wire.Code.{
  Opcode, RemoteTransferState, running, paused, completed, pause, resume, cancel, complete,
}
use clip_ferry.Wire.Message.{TransferCredentials}
use clip_ferry.Server.State.{ServerState, TransferSession, Moment, is_active}
use clip_ferry.Server.Peers.{peer_is_allowed}

-- What the commands are for. A command that finds the transfer in no state that it is for does nothing.
pub data Ran : Opcode → RemoteTransferState → RemoteTransferState → Type 0 where
  pause_running : Ran pause running paused
  pause_other : {x : RemoteTransferState} → x ≢ running → Ran pause x x
  resume_paused : Ran resume paused running
  resume_other : {x : RemoteTransferState} → x ≢ paused → Ran resume x x
  cancel_running : Ran cancel running RemoteTransferState.cancelled
  cancel_paused : Ran cancel paused RemoteTransferState.cancelled
  cancel_ended : {x : RemoteTransferState} → is_active x ≡ false → Ran cancel x x
  complete_running : Ran complete running completed
  complete_other : {x : RemoteTransferState} → x ≢ running → Ran complete x x

-- Every session is still there, and is in that relation to what it was.
abbrev MovesBy : (TransferSession → TransferSession → Type 0) → ServerState → ServerState → Type 0
MovesBy R s s' =
    (k : List ℕ) (t : TransferSession)
    → lookup k s.transfers ≡ some t
    → (t' : TransferSession) × (lookup k s'.transfers ≡ some t') × R t t'

-- What may become of a session's state when a peer sends a command with its credentials: nothing; or, on
-- the session that they name, what the command is for; or, if the peer is not trusted any more, its own
-- sessions that were active are cancelled.
pub data Commanded (m : Moment) (peer : List ℕ) (c : TransferCredentials) (o : Opcode)
    (s : ServerState) (t t' : TransferSession) : Type 0 where
  unchanged : t'.inner.state ≡ t.inner.state → Commanded m peer c o s t t'
  ran :
      peer_is_allowed s m peer ≡ true
      → t.transfer_id ≡ c.transfer_id
      → Ran o t.inner.state t'.inner.state
      → Commanded m peer c o s t t'
  revoked :
      peer_is_allowed s m peer ≡ false
      → t.authorized_peer ≡ peer
      → is_active t.inner.state ≡ true
      → t'.inner.state ≡ RemoteTransferState.cancelled
      → Commanded m peer c o s t t'
