-- ===== src/Client/Recovery.antt =====
-- The client's recovery from network errors: `command_recovering` and `command_status_retry_once` of
-- src/clipboard/secure_transfer.rs. What passes between two readings of the clock is given for each
-- attempt, and a command is any change of the world with a result.
pub mod Ends
pub mod Rule
pub mod Network
pub mod Resend
use clip_ferry.Common.{
  ℕ, ◌+◌, ◌-◌, ◌*◌, ◌^◌, min, Option, none, some, List, [], ◌∷◌, leb, ◌==◌, ◌&&◌, not,
  if◌then◌else◌, Bool,
}
use clip_ferry.Common.Result.{Result, ok, err, timed_out, interrupted}
use clip_ferry.Client.Waits.{
  SecureRecoveryPolicy, checked_add, unwrap_or, Poll, Tick, WaitEnd, over, stopped, blocked,
  wait_gate, moved_deadline, sleep_recovery_delay, NetworkError, is_recoverable_network_error,
}

abbrev pub CommandResult : Type 0
CommandResult = Result NetworkError (List ℕ)

-- `SecureRecoveryMetrics`; the counters are unbounded.
pub record SecureRecoveryMetrics : Type 0 where
  pub transient_failures : ℕ
  pub reconnect_attempts : ℕ
  pub recovered_commands : ℕ
  pub exhausted_commands : ℕ
  pub active_recoveries : ℕ

-- What passes during one attempt: the wait for the end of a suspension before it, the caller's signal,
-- the time of the command, the sleep behind a failure, and the time until the clock is read again.
pub record Attempt : Type 0 where
  pub polls : List Poll
  pub interrupt : Bool
  pub took : ℕ
  pub ticks : List Tick
  pub lag : ℕ

-- `Duration::MAX`
abbrev pub duration_max : ℕ
duration_max = 2 ^ 64 * 1000000000 - 1

-- `delay.saturating_mul(2).min(max_backoff)`
unfoldable pub next_delay : SecureRecoveryPolicy → ℕ → ℕ
next_delay p delay = min (min (delay * 2) duration_max) p.max_backoff

abbrev pub interrupted_error : NetworkError
interrupted_error = record { kind = interrupted; raw_os_error = none }

abbrev pub exhausted_error : NetworkError
exhausted_error = record { kind = timed_out; raw_os_error = none }

-- A recoverable failure is counted; the first one begins a recovery.
unfoldable pub note_failure : ℕ → SecureRecoveryMetrics → SecureRecoveryMetrics
note_failure attempts m = record m {
  transient_failures = m.transient_failures + 1;
  active_recoveries = if attempts == 0 then m.active_recoveries + 1 else m.active_recoveries;
}

abbrev pub count_reconnect : SecureRecoveryMetrics → SecureRecoveryMetrics
count_reconnect m = record m { reconnect_attempts = m.reconnect_attempts + 1 }

abbrev pub count_recovered : SecureRecoveryMetrics → SecureRecoveryMetrics
count_recovered m = record m { recovered_commands = m.recovered_commands + 1 }

abbrev pub count_exhausted : SecureRecoveryMetrics → SecureRecoveryMetrics
count_exhausted m = record m { exhausted_commands = m.exhausted_commands + 1 }

-- The drop of `ActiveRecovery`.
abbrev pub end_recovery : SecureRecoveryMetrics → SecureRecoveryMetrics
end_recovery m = record m { active_recoveries = m.active_recoveries - 1 }

-- `attempts.saturating_add(1)`
abbrev pub one_more : ℕ → ℕ
one_more attempts = min (attempts + 1) (2 ^ 64 - 1)

-- How a command stands: the world, the counters, and its result, if there is one.
pub record Recovered (W : Type 0) : Type 0 where
  pub world : W
  pub metrics : SecureRecoveryMetrics
  pub result : Option CommandResult

module _ {W : Type 0} where
  abbrev pub recovered : W → SecureRecoveryMetrics → Option CommandResult → Recovered W
  recovered w m result = record { world = w; metrics = m; result = result }

  -- A return before the first failure has no guard to drop.
  unfoldable pub finish : ℕ → SecureRecoveryMetrics → W → CommandResult → Recovered W
  finish attempts m w result =
      recovered w (if attempts == 0 then m else end_recovery m) (some result)

  abbrev pub exhausted : SecureRecoveryMetrics → W → Recovered W
  exhausted m w = recovered w (end_recovery (count_exhausted m)) (some (err exhausted_error))

  -- The gate in front of every attempt but the first.
  unfoldable pub after_gate :
      ℕ → ℕ → ℕ → SecureRecoveryMetrics → W → (ℕ → ℕ → Recovered W) → ℕ → WaitEnd → Recovered W
  after_gate limit paused_at deadline m w go attempts (over now) =
      go now (moved_deadline limit paused_at now deadline)
  after_gate limit paused_at deadline m w go attempts stopped =
      finish attempts m w (err interrupted_error)
  after_gate limit paused_at deadline m w go attempts blocked = recovered w m none

  unfoldable pub wait_recovery_gate :
      ℕ → Attempt → ℕ → ℕ → ℕ → SecureRecoveryMetrics → W → (ℕ → ℕ → Recovered W) → Recovered W
  wait_recovery_gate limit a attempts now deadline m w go =
      if attempts == 0
      then go now deadline
      else after_gate limit now deadline m w go attempts (wait_gate now a.polls)

  unfoldable pub after_sleep :
      ℕ
      → ℕ
      → SecureRecoveryMetrics
      → W
      → (ℕ → SecureRecoveryMetrics → W → Recovered W)
      → WaitEnd
      → Recovered W
  after_sleep lag deadline m w go (over now) =
      if leb deadline (now + lag) then exhausted m w else go (now + lag) m w
  after_sleep lag deadline m w go stopped =
      recovered w (end_recovery m) (some (err interrupted_error))
  after_sleep lag deadline m w go blocked = recovered w m none

  unfoldable pub after_failure :
      ℕ
      → Attempt
      → ℕ
      → ℕ
      → ℕ
      → SecureRecoveryMetrics
      → W
      → (ℕ → SecureRecoveryMetrics → W → Recovered W)
      → Recovered W
  after_failure limit a now deadline delay m w go =
      if leb deadline now
      then exhausted m w
      else after_sleep a.lag deadline (count_reconnect m) w go
          (sleep_recovery_delay limit delay deadline now a.ticks)

  -- The `match` on the command's result.
  unfoldable pub after_command :
      ℕ
      → Attempt
      → ℕ
      → ℕ
      → ℕ
      → ℕ
      → SecureRecoveryMetrics
      → (ℕ → SecureRecoveryMetrics → W → Recovered W)
      → W × CommandResult
      → Recovered W
  after_command limit a attempts now deadline delay m go (w, ok response) =
      finish attempts (if attempts == 0 then m else count_recovered m) w (ok response)
  after_command limit a attempts now deadline delay m go (w, err e) =
      if is_recoverable_network_error e
      then after_failure limit a now deadline delay (note_failure attempts m) w go
      else finish attempts m w (err e)

  module _ (p : SecureRecoveryPolicy) (limit : ℕ) (command : W → W × CommandResult) where
    unfoldable pub try_command :
        Attempt
        → ℕ
        → ℕ
        → ℕ
        → ℕ
        → SecureRecoveryMetrics
        → W
        → (ℕ → SecureRecoveryMetrics → W → Recovered W)
        → Recovered W
    try_command a attempts now deadline delay m w go =
        if a.interrupt
        then finish attempts m w (err interrupted_error)
        else after_command limit a attempts (now + a.took) deadline delay m go (command w)

    -- The loop of `command_recovering`, on what passes during each attempt.
    unfoldable pub command_attempts :
        List Attempt → ℕ → ℕ → ℕ → ℕ → SecureRecoveryMetrics → W → Recovered W
    command_attempts [] attempts now deadline delay m w = recovered w m none
    command_attempts (a ∷ rest) attempts now deadline delay m w =
        wait_recovery_gate limit a attempts now deadline m w λ now' deadline'.
          try_command a attempts now' deadline' delay m w λ now'' m' w'.
            command_attempts rest (one_more attempts) now'' deadline' (next_delay p delay) m' w'

    unfoldable pub command_recovering : List Attempt → ℕ → SecureRecoveryMetrics → W → Recovered W
    command_recovering attempts now m w =
        if p.max_elapsed == 0
        then recovered (command w).0 m (some (command w).1)
        else command_attempts attempts 0 now (unwrap_or now (checked_add limit now p.max_elapsed))
            p.initial_backoff m w

    -- The second and last try of a status command.
    unfoldable pub retry_status : SecureRecoveryMetrics → W × CommandResult → Recovered W
    retry_status m (w, ok response) =
        recovered w (end_recovery (count_recovered m)) (some (ok response))
    retry_status m (w, err e) =
        recovered w
          (end_recovery (
            if is_recoverable_network_error e
            then record m { transient_failures = m.transient_failures + 1 }
            else m))
          (some (err e))

    unfoldable pub after_status : SecureRecoveryMetrics → W × CommandResult → Recovered W
    after_status m (w, ok response) = recovered w m (some (ok response))
    after_status m (w, err e) =
        if not (p.max_elapsed == 0) && is_recoverable_network_error e
        then retry_status (count_reconnect (note_failure 0 m)) (command w)
        else recovered w m (some (err e))

    unfoldable pub command_status_retry_once : SecureRecoveryMetrics → W → Recovered W
    command_status_retry_once m w = after_status m (command w)
