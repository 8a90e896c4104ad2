-- ===== src/Server/Control/Machine.antt =====
-- The control commands: what they may do to any session, retries and replays.
use clip_ferry.Common.{
  ℕ, ◌<◌, ◌≡◌, ◌∙◌, inl, inr, refl, sym, ap, some, true, List, arith, bytes, Bool-cases, leb, ◌==◌,
  ◌&&◌,
}
use mathlib.Core.Option.{some-injective}
use clip_ferry.Common.Map.{lookup, Entries-lookup}
use clip_ferry.Wire.Code.{
  Opcode, RemoteTransferState, running, paused, pause, resume, cancel, complete,
}
use clip_ferry.Wire.Message.{TransferCredentials}
use clip_ferry.Server.State.{
  ServerState, TransferSession, TransferInner, Moment, count_denied, count_replayed,
  count_cancelled, is_active,
}
use clip_ferry.Server.Coverage.History.{IsCoverage}
use clip_ferry.Server.Peers.Auth.{Authenticated, session_rule}
use clip_ferry.Server.Peers.Invariant.{
  IsServer, OwnKey, KeepsSession, modify-IsServer, metrics-IsServer, ensure_peer_allowed-IsServer,
}
use clip_ferry.Server.Evolve.{
  Edge, stays, pauses, resumes, cancels as cancelled_edge, completes, here, next, Later,
  Later-inner, Evolves, Evolves-refl, Evolves-modify, ensure_peer_allowed-Evolves,
}
use clip_ferry.Server.Control.{
  is_last_opcode, is_control, next_state, cancels, accept, set_inner, change_session,
  control_session, control,
}

pub next_state-Edge : (o : Opcode) (x : RemoteTransferState) → Edge x (next_state o x)
unfolding next_state is_active
next_state-Edge pause running = pauses
next_state-Edge resume paused = resumes
next_state-Edge cancel running = cancelled_edge refl
next_state-Edge cancel paused = cancelled_edge refl
next_state-Edge complete running = completes
next_state-Edge _ _ = stays

-- The ways through `control` on a session.
pub control_session_rule {ℓ} :
    (P : ServerState → Type ℓ) (sequence : ℕ) (o : Opcode) (t : TransferSession) (s : ServerState)
    → P s
    → P (count_replayed s)
    → (t.inner.last_control_sequence < sequence
        → is_control o ≡ true
        → P (
            count_cancelled (cancels o t.inner.state) (
              change_session t.transfer_id
                (λ j. record (accept sequence o j) { state = next_state o j.state })
                s)))
    → (t.inner.last_control_sequence < sequence
        → P (change_session t.transfer_id (accept sequence o) s))
    → P (control_session sequence o t s).0
unfolding control_session
control_session_rule P sequence o t s same stale taken invalid =
    elim (Bool-cases (
      (sequence == t.inner.last_control_sequence)
      && is_last_opcode t.inner.last_control_opcode o)) [
        | inl retry ↦ rw retry same
        | inr other ↦ rw other (elim (Bool-cases (leb sequence t.inner.last_control_sequence)) [
          | inl old ↦ rw old stale
          | inr new ↦ rw new (elim (Bool-cases (is_control o)) [
            | inl control_opcode ↦ rw control_opcode (taken (ground arith) control_opcode)
            | inr no_control ↦ rw no_control (invalid (ground arith))
          ])
        ])
      ]

pub accepted_Later :
    (sequence : ℕ) (o : Opcode) (t : TransferSession) (x : RemoteTransferState)
    → t.inner.last_control_sequence < sequence
    → Edge t.inner.state x
    → Later t (record t { inner = record (accept sequence o t.inner) { state = x } })
accepted_Later sequence o t x h e =
    Later-inner t (record (accept sequence o t.inner) { state = x }) (next here e) (omega arith)

-- The session at its own key is the one that was handed out.
pub own_session :
    (m : Moment) (peer : List ℕ) (c : TransferCredentials) (s : ServerState) (t u : TransferSession)
    → IsServer s
    → Authenticated m peer c s t
    → lookup t.transfer_id s.transfers ≡ some u
    → u ≡ t
own_session m peer c s t u w a found =
    let own = Entries-lookup OwnKey c.transfer_id s.transfers a.found w.sessions in
    some-injective u t (sym found ∙ ap (λ k. lookup k s.transfers) own.0 ∙ a.found)

-- In a well-formed server, whatever a peer sends as a control command, and whatever comes of it,
-- every session is still there with its identity and lifetime, its state has moved along edges of the machine at most, and
-- its sequence number has not fallen.
pub control-Evolves :
    (m : Moment) (peer : List ℕ) (c : TransferCredentials) (sequence : ℕ) (o : Opcode)
    (s : ServerState)
    → IsServer s
    → Evolves s (control m peer c sequence o s).0
unfolding control
control-Evolves m peer c sequence o s w =
    session_rule (Evolves s) m peer c (control_session sequence o) s
      (ensure_peer_allowed-Evolves m peer s) (Evolves-refl s (count_denied s) refl)
      λ t a.
        control_session_rule (Evolves s) sequence o t s (Evolves-refl s s refl)
          (Evolves-refl s (count_replayed s) refl)
          (λ new known.
            Evolves-modify t.transfer_id
              (set_inner (λ j. record (accept sequence o j) { state = next_state o j.state })) s
              (change_session t.transfer_id
                (λ j. record (accept sequence o j) { state = next_state o j.state }) s)
              (λ u found.
                let same = own_session m peer c s t u w a found in
                accepted_Later sequence o u (next_state o u.inner.state) (rw same new)
                  (next_state-Edge o u.inner.state))
              refl)
          (λ new.
            Evolves-modify t.transfer_id (set_inner (accept sequence o)) s
              (change_session t.transfer_id (accept sequence o) s)
              (λ u found.
                let same = own_session m peer c s t u w a found in
                accepted_Later sequence o u u.inner.state (rw same new) stays)
              refl)

set_inner-KeepsSession :
    (f : TransferInner → TransferInner)
    → ((i : TransferInner) → IsCoverage i.coverage → IsCoverage (f i).coverage)
    → KeepsSession (set_inner f)
set_inner-KeepsSession f h = record {
  keeps_peer = λ t. refl;
  keeps_offer = λ t. refl;
  keeps_file = λ t. refl;
  keeps_id = λ t. refl;
  keeps_lifetime = λ t. refl;
  keeps_coverage = λ t v. h t.inner v;
}

pub change_session-IsServer :
    (k : List ℕ) (f : TransferInner → TransferInner) (s : ServerState)
    → ((i : TransferInner) → IsCoverage i.coverage → IsCoverage (f i).coverage)
    → IsServer s
    → IsServer (change_session k f s)
change_session-IsServer k f s h w = modify-IsServer (set_inner f) (set_inner-KeepsSession f h) k s w

pub control-IsServer :
    (m : Moment) (peer : List ℕ) (c : TransferCredentials) (sequence : ℕ) (o : Opcode)
    (s : ServerState)
    → IsServer s
    → IsServer (control m peer c sequence o s).0
unfolding control
control-IsServer m peer c sequence o s w =
    session_rule IsServer m peer c (control_session sequence o) s
      (ensure_peer_allowed-IsServer peer m s w) (metrics-IsServer s _ w)
      λ t a.
        control_session_rule IsServer sequence o t s w (metrics-IsServer s _ w)
          (λ new known.
            metrics-IsServer _ _ (change_session-IsServer t.transfer_id _ s (λ i v. v) w))
          (λ new. change_session-IsServer t.transfer_id (accept sequence o) s (λ i v. v) w)
