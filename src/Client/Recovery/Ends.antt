-- ===== src/Client/Recovery/Ends.antt =====
-- The recovery loop comes to an end.
use clip_ferry.Common.{
  ℕ, ◌+◌, ◌*◌, ◌<◌, ◌≤◌, ◌≡◌, ◌≢◌, ◌⊎◌, inl, inr, refl, min, Bool, true, false, none, List, [], ◌∷◌,
  length, leb, ltb, ◌==◌, if◌then◌else◌, All, arith, Bool-cases,
}
use clip_ferry.Common.Result.{ok, err}
use clip_ferry.Client.Waits.{
  SecureRecoveryPolicy, with_recovery_policy, ten_millis, checked_add, unwrap_or, Poll, Tick,
  WaitEnd, over, stopped, blocked, wait_gate, moved_deadline, sleep_until, sleep_recovery_delay,
  is_recoverable_network_error,
}
use clip_ferry.Client.Recovery.{
  CommandResult, SecureRecoveryMetrics, Attempt, next_delay, note_failure, count_reconnect,
  one_more, Recovered, finish, after_gate, wait_recovery_gate, after_sleep, after_failure,
  after_command, try_command, command_attempts, command_recovering,
}

-- The suspension is over at one of the polls.
abbrev pub Opens : List Poll → Type 0
Opens [] = ⊥
Opens (p ∷ polls) = (p.suspended ≡ false) ⊎ Opens polls

unfoldable pub total_passed : List Tick → ℕ
total_passed [] = 0
total_passed (t ∷ ticks) = t.passed + total_passed ticks

-- The suspension before the attempt ends, and the sleep behind it gets as much time as the policy
-- allows a recovery.
pub record Awake (p : SecureRecoveryPolicy) (a : Attempt) : Type 0 where
  pub opens : Opens a.polls
  pub sleeps : p.max_elapsed ≤ total_passed a.ticks

-- How a gate that opens ends.
abbrev GateEnd : ℕ → WaitEnd → Type 0
GateEnd now (over later) = now ≤ later
GateEnd now stopped = Unit {0}
GateEnd now blocked = ⊥

GateEnd-from : (now took : ℕ) (e : WaitEnd) → GateEnd (now + took) e → GateEnd now e
GateEnd-from now took (over later) h = omega (arith, h)
GateEnd-from now took stopped h = tt
GateEnd-from now took blocked h = h

wait_gate-ends : (now : ℕ) (polls : List Poll) → Opens polls → GateEnd now (wait_gate now polls)
unfolding wait_gate
wait_gate-ends now [] h = elim h [ ]
wait_gate-ends now (p ∷ polls) h = elim (Bool-cases p.suspended) [
  | inr clear ↦ rw clear (omega arith)
  | inl held ↦ elim (Bool-cases p.interrupt) [
    | inl signal ↦ rw (held, signal) tt
    | inr quiet ↦ elim h [
      | inl clear ↦ absurd (ground arith)
      | inr later ↦
          rw (held, quiet)
            (GateEnd-from now p.took (wait_gate (now + p.took) polls)
              (wait_gate-ends (now + p.took) polls later))
    ]
  ]
]

abbrev SleepEnd : ℕ → WaitEnd → Type 0
SleepEnd wake_at (over later) = wake_at ≤ later
SleepEnd wake_at stopped = Unit {0}
SleepEnd wake_at blocked = ⊥

sleep_until-ends :
    (wake_at now : ℕ) (ticks : List Tick)
    → wake_at ≤ now + total_passed ticks
    → SleepEnd wake_at (sleep_until wake_at now ticks)
unfolding sleep_until total_passed
sleep_until-ends wake_at now [] h = elim (Bool-cases (ltb now wake_at)) [
  | inl early ↦ absurd (ground arith)
  | inr due ↦ rw due (ground arith)
]
sleep_until-ends wake_at now (t ∷ ticks) h = elim (Bool-cases (ltb now wake_at)) [
  | inr due ↦ rw due (ground arith)
  | inl early ↦ elim (Bool-cases t.interrupt) [
    | inl signal ↦ rw (early, signal) tt
    | inr quiet ↦
        rw (early, quiet) (sleep_until-ends wake_at (now + t.passed) ticks (omega (arith, h)))
  ]
]

-- The sleep is long enough for the delay, or for the rest of the time.
wake_at-late :
    (limit delay deadline now later : ℕ)
    → min (unwrap_or deadline (checked_add limit now delay)) deadline ≤ later
    → later < deadline
    → now + delay ≤ later
wake_at-late limit delay deadline now later h k = ground arith

-- A test between two ends.
if-ends :
    {W : Type 0} (b : Bool) (x y : Recovered W)
    → x.result ≢ none
    → (b ≡ false → y.result ≢ none)
    → (if b then x else y).result ≢ none
if-ends true x y h k = h
if-ends false x y h k = k refl

module _ {W : Type 0} where
  after_sleep-ends :
      (lag deadline wake_at : ℕ) (m : SecureRecoveryMetrics) (w : W)
      (go : ℕ → SecureRecoveryMetrics → W → Recovered W) (e : WaitEnd)
      → SleepEnd wake_at e
      → ((now : ℕ) (m' : SecureRecoveryMetrics) (w' : W)
          → wake_at ≤ now
          → now < deadline
          → (go now m' w').result ≢ none)
      → (after_sleep lag deadline m w go e).result ≢ none
  unfolding after_sleep
  after_sleep-ends lag deadline wake_at m w go (over now) h k e =
      elim (Bool-cases (leb deadline (now + lag))) [
        | inl late ↦ ground arith
        | inr early ↦ k (now + lag) m w (omega (arith, h)) (ground arith) (rw early at e)
      ]
  after_sleep-ends lag deadline wake_at m w go stopped h k e = ground arith
  after_sleep-ends lag deadline wake_at m w go blocked h k e = h

  module _ (p : SecureRecoveryPolicy) (limit : ℕ) where
    after_command-ends :
        (a : Attempt) (attempts now deadline delay : ℕ) (m : SecureRecoveryMetrics)
        (go : ℕ → SecureRecoveryMetrics → W → Recovered W) (r : W × CommandResult)
        → deadline ≤ now + p.max_elapsed
        → Awake p a
        → ((later : ℕ) (m' : SecureRecoveryMetrics) (w' : W)
            → now + delay ≤ later
            → later < deadline
            → (go later m' w').result ≢ none)
        → (after_command limit a attempts now deadline delay m go r).result ≢ none
    unfolding after_command finish after_failure sleep_recovery_delay
    after_command-ends a attempts now deadline delay m go (w, ok response) h awake k e =
        ground arith
    after_command-ends a attempts now deadline delay m go (w, err x) h awake k e =
        elim (Bool-cases (is_recoverable_network_error x)) [
          | inr final ↦ ground arith
          | inl transient ↦ elim (Bool-cases (leb deadline now)) [
            | inl late ↦ ground arith
            | inr early ↦
                let wake_at = min (unwrap_or deadline (checked_add limit now delay)) deadline in
                let asleep : wake_at ≤ now + total_passed a.ticks = ground (arith, awake.sleeps) in
                after_sleep-ends a.lag deadline wake_at (count_reconnect (note_failure attempts m))
                  w go (sleep_until wake_at now a.ticks)
                  (sleep_until-ends wake_at now a.ticks asleep)
                  (λ later m' w' late before.
                    k later m' w' (wake_at-late limit delay deadline now later late before) before)
                  (rw (transient, early) at e)
          ]
        ]

    after_gate-ends :
        (attempts now deadline : ℕ) (m : SecureRecoveryMetrics) (w : W) (go : ℕ → ℕ → Recovered W)
        (e : WaitEnd)
        → GateEnd now e
        → ((now' deadline' : ℕ)
            → deadline' + now ≤ deadline + now'
            → (go now' deadline').result ≢ none)
        → (after_gate limit now deadline m w go attempts e).result ≢ none
    unfolding after_gate finish
    after_gate-ends attempts now deadline m w go (over later) h k =
        k later (moved_deadline limit now later deadline) (ground arith)
    after_gate-ends attempts now deadline m w go stopped h k = λ e. ground arith
    after_gate-ends attempts now deadline m w go blocked h k = λ e. h

    gate-ends :
        (a : Attempt) (attempts now deadline : ℕ) (m : SecureRecoveryMetrics) (w : W)
        (go : ℕ → ℕ → Recovered W)
        → Opens a.polls
        → ((now' deadline' : ℕ)
            → deadline' + now ≤ deadline + now'
            → (go now' deadline').result ≢ none)
        → (wait_recovery_gate limit a attempts now deadline m w go).result ≢ none
    unfolding wait_recovery_gate
    gate-ends a attempts now deadline m w go opens k e = elim (Bool-cases (attempts == 0)) [
      | inl first ↦ k now deadline (omega arith) (rw first at e)
      | inr later ↦
          after_gate-ends attempts now deadline m w go (wait_gate now a.polls)
            (wait_gate-ends now a.polls opens) k (rw later at e)
    ]

    module _ (command : W → W × CommandResult) where
      attempts-ends :
          (attempts_left : List Attempt) (attempts now deadline delay : ℕ)
          (m : SecureRecoveryMetrics) (w : W)
          → All (Awake p) attempts_left
          → ten_millis ≤ p.max_backoff
          → ten_millis ≤ delay
          → deadline ≤ now + p.max_elapsed
          → deadline < now + length attempts_left * ten_millis
          → 0 < length attempts_left
          → (command_attempts p limit command attempts_left attempts now deadline delay m w).result
            ≢ none
      unfolding command_attempts try_command next_delay finish
      attempts-ends [] attempts now deadline delay m w awake b d h k n = absurd (omega (arith, n))
      attempts-ends (a ∷ attempts_left) attempts now deadline delay m w (awake, all_awake) b d h k
            n =
          gate-ends a attempts now deadline m w _ awake.opens λ now' deadline' moved.
            if-ends a.interrupt _ _ (λ e. ground arith)
              λ quiet.
                after_command-ends a attempts (now' + a.took) deadline' delay m _ (command w)
                  (omega (arith, moved, h)) awake
                  (λ later m' w' late before.
                    attempts-ends attempts_left (one_more attempts) later deadline'
                      (next_delay p delay) m' w' all_awake b (ground (arith, b, d))
                      (omega (arith, late, moved, h)) (omega (arith, late, moved, k, d))
                      (omega (arith, late, before, moved, k, d)))

-- What a policy is once it has been made.
with_recovery_policy_lem :
    (p : SecureRecoveryPolicy)
    → ((with_recovery_policy p).max_elapsed ≡ p.max_elapsed)
      × ((with_recovery_policy p).max_elapsed == 0 ≡ false
          → (ten_millis ≤ (with_recovery_policy p).initial_backoff)
            × (ten_millis ≤ (with_recovery_policy p).max_backoff))
unfolding with_recovery_policy
with_recovery_policy_lem p = (ground arith, λ h. (ground arith, ground arith))

-- However often the network fails, `command_recovering` comes to an end: under a policy as
-- `with_recovery_policy` makes it, it makes at most one attempt for every ten milliseconds of the time
-- allowed, and one more, whatever the command does, if no suspension lasts for ever.
pub command_recovering_ends :
    {W : Type 0} (p : SecureRecoveryPolicy) (limit : ℕ) (command : W → W × CommandResult)
    (attempts_left : List Attempt) (now : ℕ) (m : SecureRecoveryMetrics) (w : W)
    → All (Awake (with_recovery_policy p)) attempts_left
    → p.max_elapsed < length attempts_left * ten_millis
    → (command_recovering (with_recovery_policy p) limit command attempts_left now m w).result
      ≢ none
unfolding command_recovering
command_recovering_ends p limit command attempts_left now m w awake many =
    let q = with_recovery_policy p in
    let (same, made) = with_recovery_policy_lem p in
    if-ends (q.max_elapsed == 0) _ _ (λ e. ground arith)
      λ allowed.
        attempts-ends q limit command attempts_left 0 now
          (unwrap_or now (checked_add limit now q.max_elapsed)) q.initial_backoff m w awake
          (made allowed).1 (made allowed).0 (ground arith) (ground (arith, same, many))
          (omega (arith, many))
