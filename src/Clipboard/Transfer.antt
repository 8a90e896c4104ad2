-- ===== src/Clipboard/Transfer.antt =====
-- `TransferControl` and `GeneratedSource` of src/clipboard/transfer.rs.
pub mod Laws
use clip_ferry.Common.{
  ℕ, ◌+◌, ◌-◌, ◌*◌, ◌%◌, min, suc, zero, Bool, true, false, Option, none, some, List, [], ◌∷◌,
  length, leb, ◌==◌, if◌then◌else◌, ◌||◌,
}
use clip_ferry.Common.Result.{Result, ok, err}
use clip_ferry.Clipboard.Source.{HresultError, ComResult, e_invalidarg, error_cancelled}

pub data TransferControlState : Type 0 where
  running paused cancelled : TransferControlState

pub record TransferControl : Type 0 where
  pub state : TransferControlState
  pub bytes_served : ℕ
  pub chunk_calls : ℕ

abbrev pub default_control : TransferControl
default_control = record { state = running; bytes_served = 0; chunk_calls = 0 }

unfoldable pub pause_state : TransferControlState → TransferControlState
pause_state running = paused
pause_state paused = paused
pause_state cancelled = cancelled

unfoldable pub resume_state : TransferControlState → TransferControlState
resume_state running = running
resume_state paused = running
resume_state cancelled = cancelled

unfoldable pub cancel_state : TransferControlState → TransferControlState
cancel_state s = cancelled

-- `transition`: the new state is stored and returned.
unfoldable pub transition :
    (TransferControlState → TransferControlState)
    → TransferControl
    → TransferControl × TransferControlState
transition change c = (record c { state = change c.state }, change c.state)

-- What a thread sees when its wait is over: the state, and whether the wait has timed out.
pub record Wakeup : Type 0 where
  pub state : TransferControlState
  pub timed_out : Bool

-- `wait_for_chunk`, one wake-up for each wait; `none` where the thread still waits.
unfoldable pub wait_for_chunk :
    ℕ → TransferControlState → List Wakeup → Option (ComResult (Unit {0}))
wait_for_chunk delay cancelled wakeups = some (err error_cancelled)
wait_for_chunk delay paused [] = none
wait_for_chunk delay paused (w ∷ wakeups) = wait_for_chunk delay w.state wakeups
wait_for_chunk zero running wakeups = some (ok tt)
wait_for_chunk (suc delay) running [] = none
wait_for_chunk (suc delay) running (w ∷ wakeups) =
    if w.timed_out then some (ok tt) else wait_for_chunk (suc delay) w.state wakeups

unfoldable pub note_chunk : ℕ → TransferControl → TransferControl
note_chunk n c = record c { bytes_served = c.bytes_served + n; chunk_calls = c.chunk_calls + 1 }

pub record GeneratedSource : Type 0 where
  pub length : ℕ
  pub max_chunk : ℕ
  pub delay : ℕ

-- `GeneratedSource::new`
unfoldable pub new_generated : ℕ → ℕ → ℕ → ComResult GeneratedSource
new_generated length max_chunk delay =
    if (length == 0) || (max_chunk == 0)
    then err e_invalidarg
    else ok (record { length = length; max_chunk = max_chunk; delay = delay })

-- `offset.to_le_bytes()[0].wrapping_mul(31).wrapping_add(0xA5)`
unfoldable pub generated_byte : ℕ → ℕ
generated_byte offset = ((offset % 256 * 31) % 256 + 0xa5) % 256

-- The loop that fills the buffer.
unfoldable pub generated_bytes : ℕ → ℕ → List ℕ
generated_bytes offset zero = []
generated_bytes offset (suc n) = generated_byte offset ∷ generated_bytes (suc offset) n

-- What follows the wait, on the control as it is by then.
unfoldable pub give_chunk : GeneratedSource → ℕ → ℕ → TransferControl → TransferControl × List ℕ
give_chunk g offset buffer c =
    let copied = min (min (g.length - offset) buffer) g.max_chunk in
    (note_chunk copied c, generated_bytes offset copied)

-- `others` is what other threads do to the control while this one waits.
unfoldable pub generated_read_at :
    GeneratedSource
    → List Wakeup
    → (TransferControl → TransferControl)
    → ℕ
    → ℕ
    → TransferControl
    → TransferControl × Option (ComResult (List ℕ))
generated_read_at g wakeups others offset buffer c =
    if leb g.length offset || (buffer == 0)
    then (c, some (ok []))
    else (elim (wait_for_chunk g.delay c.state wakeups) [
      | none ↦ (others c, none)
      | some (err e) ↦ (others c, some (err e))
      | some (ok u) ↦
          let (c', chunk) = give_chunk g offset buffer (others c) in (c', some (ok chunk))
    ])
