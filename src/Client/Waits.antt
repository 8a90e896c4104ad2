-- ===== src/Client/Waits.antt =====
-- What the client's recovery waits for, and which errors it recovers from: `SecureRecoveryPolicy`,
-- `wait_recovery_gate`, `sleep_recovery_delay` and `is_recoverable_network_error` of
-- src/clipboard/secure_transfer.rs. Instants and durations count nanoseconds.
use clip_ferry.Common.{
  ℕ, ◌+◌, ◌-◌, ◌*◌, min, max, Bool, true, false, Option, none, some, List, [], ◌∷◌, ltb, ◌==◌, ◌||◌,
  if◌then◌else◌,
}
use clip_ferry.Common.Result.{
  IoError, invalid_data, invalid_input, unexpected_eof, permission_denied, timed_out, would_block,
  interrupted, connection_aborted, connection_reset, broken_pipe, not_connected, other,
}

pub record SecureRecoveryPolicy : Type 0 where
  pub max_elapsed : ℕ
  pub connect_attempt_timeout : ℕ
  pub initial_backoff : ℕ
  pub max_backoff : ℕ

abbrev pub disabled : SecureRecoveryPolicy
disabled = record {
  max_elapsed = 0;
  connect_attempt_timeout = 0;
  initial_backoff = 0;
  max_backoff = 0;
}

abbrev pub ten_millis : ℕ
ten_millis = 10 * 1000000

-- What `with_recovery_policy` makes of a policy.
unfoldable pub with_recovery_policy : SecureRecoveryPolicy → SecureRecoveryPolicy
with_recovery_policy p = if p.max_elapsed == 0 then p else record p {
  connect_attempt_timeout = max p.connect_attempt_timeout ten_millis;
  initial_backoff = max p.initial_backoff ten_millis;
  max_backoff = max p.max_backoff (max p.initial_backoff ten_millis);
}

-- `Instant::checked_add`: `none` from the first instant on that the clock cannot represent.
abbrev pub checked_add : ℕ → ℕ → ℕ → Option ℕ
checked_add limit instant duration =
    if ltb (instant + duration) limit then some (instant + duration) else none

abbrev pub unwrap_or : ℕ → Option ℕ → ℕ
unwrap_or fallback none = fallback
unwrap_or fallback (some n) = n

-- One turn of the wait for the end of a suspension, and how long its sleep took. A signal that the
-- caller does not give reads as `false`.
pub record Poll : Type 0 where
  pub suspended : Bool
  pub interrupt : Bool
  pub took : ℕ

-- One turn of the sleep between two attempts.
pub record Tick : Type 0 where
  pub passed : ℕ
  pub interrupt : Bool

-- How a wait ends: at an instant, or interrupted; `blocked` where what is given of it runs out.
pub data WaitEnd : Type 0 where
  over : ℕ → WaitEnd
  stopped : WaitEnd
  blocked : WaitEnd

-- The loop of `wait_recovery_gate`.
unfoldable pub wait_gate : ℕ → List Poll → WaitEnd
wait_gate now [] = blocked
wait_gate now (p ∷ polls) =
    let rest = wait_gate (now + p.took) polls in
    if p.suspended then (if p.interrupt then stopped else rest) else over now

-- The deadline is moved by the time of the suspension.
abbrev pub moved_deadline : ℕ → ℕ → ℕ → ℕ → ℕ
moved_deadline limit paused_at now deadline =
    unwrap_or deadline (checked_add limit deadline (now - paused_at))

-- The loop of `sleep_recovery_delay`; each turn begins with a reading of the clock.
unfoldable pub sleep_until : ℕ → ℕ → List Tick → WaitEnd
sleep_until wake_at now [] = if ltb now wake_at then blocked else over now
sleep_until wake_at now (t ∷ ticks) =
    let rest = sleep_until wake_at (now + t.passed) ticks in
    if ltb now wake_at then (if t.interrupt then stopped else rest) else over now

unfoldable pub sleep_recovery_delay : ℕ → ℕ → ℕ → ℕ → List Tick → WaitEnd
sleep_recovery_delay limit delay deadline now ticks =
    sleep_until (min (unwrap_or deadline (checked_add limit now delay)) deadline) now ticks

-- An `io::Error`: its kind, and the system's code if it has one.
pub record NetworkError : Type 0 where
  pub kind : IoError
  pub raw_os_error : Option ℕ

unfoldable pub is_recoverable_kind : IoError → Bool
is_recoverable_kind broken_pipe = true
is_recoverable_kind connection_aborted = true
is_recoverable_kind connection_reset = true
is_recoverable_kind not_connected = true
is_recoverable_kind timed_out = true
is_recoverable_kind unexpected_eof = true
is_recoverable_kind would_block = true
is_recoverable_kind invalid_data = false
is_recoverable_kind invalid_input = false
is_recoverable_kind permission_denied = false
is_recoverable_kind interrupted = false
is_recoverable_kind other = false

-- The codes of Windows for a network that is down or a peer that is gone.
unfoldable pub is_recoverable_code : ℕ → Bool
is_recoverable_code c =
    (c == 53)
    || (c == 64)
    || (c == 121)
    || (c == 10050)
    || (c == 10051)
    || (c == 10052)
    || (c == 10053)
    || (c == 10054)
    || (c == 10060)
    || (c == 10061)
    || (c == 10064)
    || (c == 10065)

unfoldable pub is_recoverable_network_error : NetworkError → Bool
is_recoverable_network_error e =
    is_recoverable_kind e.kind
    || elim e.raw_os_error [ some c ↦ is_recoverable_code c | none ↦ false ]
