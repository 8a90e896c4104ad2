-- ===== src/Client/Recovery/Rule.antt =====
-- What the recovery loop may be trusted with: it changes the world by commands alone, and gives a
-- response only if its last command gave that one.
use mathlib.Core.Option.{some-injective}
use clip_ferry.Common.{
  ℕ, ◌≡◌, ◌∙◌, refl, ap, Bool, true, false, some, List, [], ◌∷◌, leb, ◌==◌, if◌then◌else◌, arith,
  ◌+◌,
}
use clip_ferry.Common.Result.{ok, err}
use clip_ferry.Client.Waits.{
  SecureRecoveryPolicy, checked_add, unwrap_or, WaitEnd, over, stopped, blocked, wait_gate,
  moved_deadline, NetworkError, is_recoverable_network_error,
}
use clip_ferry.Client.Recovery.{
  CommandResult, interrupted_error, SecureRecoveryMetrics, Attempt, next_delay, one_more, Recovered,
  finish, after_gate, wait_recovery_gate, after_sleep, after_failure, after_command, try_command,
  command_attempts, command_recovering,
}

module _ {W : Type 0} (command : W → W × CommandResult) (P : W → Type 0) where
  -- The world is as the property says, and a response is that of a command in such a world.
  abbrev pub Answers : Recovered W → Type 0
  Answers r =
      P r.world
      × ((response : List ℕ)
          → r.result ≡ some (ok response)
          → (w : W) × P w × (command w ≡ (r.world, ok response)))

  if-Answers : (b : Bool) (x y : Recovered W) → Answers x → Answers y → Answers (if b then x else y)
  if-Answers true x y h k = h
  if-Answers false x y h k = k

  after_sleep-Answers :
      (lag deadline : ℕ) (m : SecureRecoveryMetrics) (w : W)
      (go : ℕ → SecureRecoveryMetrics → W → Recovered W) (e : WaitEnd)
      → P w
      → ((now : ℕ) (m' : SecureRecoveryMetrics) → Answers (go now m' w))
      → Answers (after_sleep lag deadline m w go e)
  unfolding after_sleep
  after_sleep-Answers lag deadline m w go (over now) h k =
      if-Answers (leb deadline (now + lag)) _ _ (h, λ response q. absurd (ground arith))
        (k (now + lag) m)
  after_sleep-Answers lag deadline m w go stopped h k = (h, λ response q. absurd (ground arith))
  after_sleep-Answers lag deadline m w go blocked h k = (h, λ response q. absurd (ground arith))

  after_command-Answers :
      (limit : ℕ) (a : Attempt) (attempts now deadline delay : ℕ) (m : SecureRecoveryMetrics)
      (go : ℕ → SecureRecoveryMetrics → W → Recovered W) (w : W) (r : W × CommandResult)
      → command w ≡ r
      → P w
      → P r.0
      → ((now' : ℕ) (m' : SecureRecoveryMetrics) → Answers (go now' m' r.0))
      → Answers (after_command limit a attempts now deadline delay m go r)
  unfolding after_command finish after_failure
  after_command-Answers limit a attempts now deadline delay m go w (w', ok response) e h h' k =
      (h', λ response' e'. (w, h, e ∙ ap (λ r. (w', r)) (some-injective _ _ e')))
  after_command-Answers limit a attempts now deadline delay m go w (w', err x) e h h' k =
      if-Answers (is_recoverable_network_error x) _ _
        (if-Answers (leb deadline now) _ _ (h', λ response q. absurd (ground arith))
          (after_sleep-Answers a.lag deadline _ w' go _ h' k))
        (h', λ response q. absurd (ground arith))

  finish-Answers :
      (attempts : ℕ) (m : SecureRecoveryMetrics) (w : W) (x : NetworkError)
      → P w
      → Answers (finish attempts m w (err x))
  unfolding finish
  finish-Answers attempts m w x h = (h, λ response q. absurd (ground arith))

  after_gate-Answers :
      (limit paused_at deadline attempts : ℕ) (m : SecureRecoveryMetrics) (w : W)
      (go : ℕ → ℕ → Recovered W) (e : WaitEnd)
      → P w
      → ((now' deadline' : ℕ) → Answers (go now' deadline'))
      → Answers (after_gate limit paused_at deadline m w go attempts e)
  unfolding after_gate finish
  after_gate-Answers limit paused_at deadline attempts m w go (over now) h k =
      k now (moved_deadline limit paused_at now deadline)
  after_gate-Answers limit paused_at deadline attempts m w go stopped h k =
      (h, λ response q. absurd (ground arith))
  after_gate-Answers limit paused_at deadline attempts m w go blocked h k =
      (h, λ response q. absurd (ground arith))

  module _ (p : SecureRecoveryPolicy) (limit : ℕ) (keeps : (w : W) → P w → P (command w).0) where
    try_command-Answers :
        (a : Attempt) (attempts now deadline delay : ℕ) (m : SecureRecoveryMetrics) (w : W)
        (go : ℕ → SecureRecoveryMetrics → W → Recovered W)
        → P w
        → ((now' : ℕ) (m' : SecureRecoveryMetrics) (w' : W) → P w' → Answers (go now' m' w'))
        → Answers (try_command p limit command a attempts now deadline delay m w go)
    unfolding try_command
    try_command-Answers a attempts now deadline delay m w go h k =
        if-Answers a.interrupt (finish attempts m w (err interrupted_error))
          (after_command limit a attempts (now + a.took) deadline delay m go (command w))
          (finish-Answers attempts m w interrupted_error h)
          (after_command-Answers limit a attempts (now + a.took) deadline delay m go w (command w)
            refl h (keeps w h) (λ now' m'. k now' m' (command w).0 (keeps w h)))

    wait_recovery_gate-Answers :
        (a : Attempt) (attempts now deadline : ℕ) (m : SecureRecoveryMetrics) (w : W)
        (go : ℕ → ℕ → Recovered W)
        → P w
        → ((now' deadline' : ℕ) → Answers (go now' deadline'))
        → Answers (wait_recovery_gate limit a attempts now deadline m w go)
    unfolding wait_recovery_gate
    wait_recovery_gate-Answers a attempts now deadline m w go h k =
        if-Answers (attempts == 0) (go now deadline)
          (after_gate limit now deadline m w go attempts (wait_gate now a.polls)) (k now deadline)
          (after_gate-Answers limit now deadline attempts m w go (wait_gate now a.polls) h k)

    attempts-Answers :
        (left : List Attempt) (attempts now deadline delay : ℕ) (m : SecureRecoveryMetrics) (w : W)
        → P w
        → Answers (command_attempts p limit command left attempts now deadline delay m w)
    unfolding command_attempts
    attempts-Answers [] attempts now deadline delay m w h = (h, λ response q. absurd (ground arith))
    attempts-Answers (a ∷ left) attempts now deadline delay m w h =
        wait_recovery_gate-Answers a attempts now deadline m w _ h λ now' deadline'.
          try_command-Answers a attempts now' deadline' delay m w _ h λ later m' w' h'.
            attempts-Answers left (one_more attempts) later deadline' (next_delay p delay) m' w' h'

    -- Where the world has a property that every command keeps, it has it after `command_recovering`,
    -- whatever fails and however often; and a response is the response of a command
    -- to the world as it stood, with the property, just before it.
    pub command_recovering-Answers :
        (left : List Attempt) (now : ℕ) (m : SecureRecoveryMetrics) (w : W)
        → P w
        → Answers (command_recovering p limit command left now m w)
    unfolding command_recovering
    command_recovering-Answers left now m w h =
        if-Answers (p.max_elapsed == 0) _ _
          (keeps w h, λ response e. (w, h, ap (λ r. ((command w).0, r)) (some-injective _ _ e)))
          (attempts-Answers left 0 now (unwrap_or now (checked_add limit now p.max_elapsed))
            p.initial_backoff m w h)
