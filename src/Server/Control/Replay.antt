-- ===== src/Server/Control/Replay.antt =====
-- After a control command was accepted: the same command again is a retry, an earlier number is a
-- replay.
use clip_ferry.Common.{
  ℕ, ◌≤◌, ◌<◌, ◌≡◌, ◌∙◌, ◌≢◌, ◌⊎◌, inl, inr, refl, sym, ap, true, false, Option, none, some, List,
  arith, bytes, bytes_eq_refl, Bool-cases, ◌==◌, ◌&&◌,
}
use clip_ferry.Common.Map.{lookup, lookup-modify, Entries-lookup}
use clip_ferry.Common.Result.{ok, err}
use clip_ferry.Wire.Code.{Opcode, replay, opcode_as_u16}
use clip_ferry.Wire.Message.{TransferCredentials, TransferStatus}
use clip_ferry.Server.State.{
  ServerState, TransferSession, TransferInner, Moment, count_replayed, status_of,
}
use clip_ferry.Server.Peers.{peer_is_allowed, authenticated_session}
use clip_ferry.Server.Peers.Auth.{Authenticated, authenticated_session_complete, session_ok}
use clip_ferry.Server.Peers.Invariant.{IsServer, OwnKey}
use clip_ferry.Server.Evolve.{Later, Later-refl}
use clip_ferry.Server.Control.Machine.{next_state-Edge, accepted_Later}
use clip_ferry.Server.Control.{
  is_last_opcode, next_state, accept, set_inner, change_session, control_session, control,
}

is_last_opcode_refl : (o : Opcode) → is_last_opcode (some o) o ≡ true
unfolding is_last_opcode
is_last_opcode_refl o = ground arith

same_code : (o p : Opcode) → opcode_as_u16 o ≡ opcode_as_u16 p → o ≡ p
unfolding opcode_as_u16
same_code o p e = ground arith

is_last_opcode_other :
    (x : Option Opcode) (o p : Opcode)
    → is_last_opcode x o ≡ true
    → p ≢ o
    → is_last_opcode x p ≡ false
unfolding is_last_opcode
is_last_opcode_other none o p h d = cc
is_last_opcode_other (some q) o p h d = elim (Bool-cases (opcode_as_u16 q == opcode_as_u16 p)) [
  | inl hit ↦ absurd (d (same_code p o (ground arith)))
  | inr miss ↦ miss
]

-- The two ways to an accepted command.
accepted_cases :
    (sequence : ℕ) (o : Opcode) (t : TransferSession) (s s' : ServerState) (st : TransferStatus)
    → control_session sequence o t s ≡ (s', ok st)
    → ((s' ≡ s)
        × (t.inner.last_control_sequence ≡ sequence)
        × (is_last_opcode t.inner.last_control_opcode o ≡ true)
        × (st ≡ status_of t.inner))
      ⊎ ((t.inner.last_control_sequence < sequence)
          × (s'.transfers
              ≡ (change_session t.transfer_id
                  (λ j. record (accept sequence o j) { state = next_state o j.state })
                  s).transfers)
          × (st
              ≡ status_of
                  (record (accept sequence o t.inner) { state = next_state o t.inner.state })))
unfolding control_session
accepted_cases sequence o t s s' st e =
    elim (Bool-cases (
      (sequence == t.inner.last_control_sequence)
      && is_last_opcode t.inner.last_control_opcode o)) [
        | inl retry ↦ inl (ground arith, ground arith, ground arith, ground arith)
        | inr other ↦ inr (ground arith, ground arith, ground arith)
      ]

-- The session holds the command that was accepted last.
pub record Accepted (sequence : ℕ) (o : Opcode) (st : TransferStatus) (t t' : TransferSession)
    : Type 0 where
  pub at_sequence : t'.inner.last_control_sequence ≡ sequence
  pub at_opcode : is_last_opcode t'.inner.last_control_opcode o ≡ true
  pub answer : status_of t'.inner ≡ st
  pub later : Later t t'

pub Accepted-in_map :
    (sequence : ℕ) (o : Opcode) (t : TransferSession) (s s' : ServerState) (st : TransferStatus)
    → lookup t.transfer_id s.transfers ≡ some t
    → control_session sequence o t s ≡ (s', ok st)
    → (t' : TransferSession) × (lookup t.transfer_id s'.transfers ≡ some t')
      × Accepted sequence o st t t'
Accepted-in_map sequence o t s s' st found e = elim (accepted_cases sequence o t s s' st e) [
  | inl (same, number, opcode, answer) ↦ (
    t,
    ap (λ (z : ServerState). lookup t.transfer_id z.transfers) same ∙ found,
    record { at_sequence = number; at_opcode = opcode; answer = sym answer; later = Later-refl t },
  )
  | inr (new, changed, answer) ↦
      let next_inner : TransferInner = record (accept sequence o t.inner) {
        state = next_state o t.inner.state;
      } in
      (
        record t { inner = next_inner },
        ap (lookup t.transfer_id) changed
            ∙ lookup-modify t.transfer_id t.transfer_id
                (set_inner (λ j. record (accept sequence o j) { state = next_state o j.state }))
                s.transfers
            ∙ rw (bytes_eq_refl t.transfer_id, found),
        record {
          at_sequence = refl;
          at_opcode = is_last_opcode_refl o;
          answer = sym answer;
          later =
              accepted_Later sequence o t (next_state o t.inner.state) new
                (next_state-Edge o t.inner.state);
        },
      )
]

-- The same peer with the same credentials reaches the session again, while it is trusted and the
-- session is alive.
again :
    (m m' : Moment) (peer : List ℕ) (c : TransferCredentials) (s s' : ServerState)
    (t t' : TransferSession)
    → IsServer s
    → Authenticated m peer c s t
    → Later t t'
    → lookup t.transfer_id s'.transfers ≡ some t'
    → peer_is_allowed s' m' peer ≡ true
    → m'.now < t.expires_at
    → authenticated_session m' peer c s' ≡ (s', ok t')
again m m' peer c s s' t t' w a l found allowed alive =
    let own = Entries-lookup OwnKey c.transfer_id s.transfers a.found w.sessions in
    authenticated_session_complete m' peer c s' t' (record {
      allowed = allowed;
      found = ap (λ k. lookup k s'.transfers) (sym own.0) ∙ found;
      alive = rw l.same_lifetime alive;
      same_peer = l.same_peer ∙ a.same_peer;
      same_offer = l.same_offer ∙ a.same_offer;
      same_file = l.same_file ∙ a.same_file;
      same_capability = l.same_capability ∙ a.same_capability;
      same_nonce = l.same_nonce ∙ a.same_nonce;
    })

pub retry_session :
    (sequence : ℕ) (o : Opcode) (st : TransferStatus) (t t' : TransferSession) (s : ServerState)
    → Accepted sequence o st t t'
    → control_session sequence o t' s ≡ (s, ok st)
unfolding control_session
retry_session sequence o st t t' s a = ground (arith, a.at_sequence, a.at_opcode, a.answer)

replay_session :
    (sequence number : ℕ) (o p : Opcode) (st : TransferStatus) (t t' : TransferSession)
    (s : ServerState)
    → Accepted sequence o st t t'
    → number ≤ sequence
    → (number ≡ sequence → is_last_opcode t'.inner.last_control_opcode p ≡ false)
    → control_session number p t' s ≡ (count_replayed s, err replay)
unfolding control_session
replay_session sequence number o p st t t' s a le other = ground (arith, a.at_sequence)

-- Once a control command has been accepted, and while the peer is trusted and the session alive:
-- the same command with the same number, sent again, changes nothing and gets the same answer; a
-- command with a smaller number, or another command with the same number, is refused as a replay,
-- which is counted and changes nothing else.
pub control_again :
    (m m' : Moment) (peer : List ℕ) (c : TransferCredentials) (sequence : ℕ) (o : Opcode)
    (s s' : ServerState) (st : TransferStatus)
    → IsServer s
    → control m peer c sequence o s ≡ (s', ok st)
    → peer_is_allowed s' m' peer ≡ true
    → ((t : TransferSession) → lookup c.transfer_id s.transfers ≡ some t → m'.now < t.expires_at)
    → (control m' peer c sequence o s' ≡ (s', ok st))
      × ((number : ℕ) (p : Opcode)
          → number ≤ sequence
          → (number ≡ sequence → p ≢ o)
          → control m' peer c number p s' ≡ (count_replayed s', err replay))
unfolding control
control_again m m' peer c sequence o s s' st w e allowed alive =
    let (t, a, e') = session_ok m peer c (control_session sequence o) s s' st e in
    let own = Entries-lookup OwnKey c.transfer_id s.transfers a.found w.sessions in
    let (t', found, acc) =
      Accepted-in_map sequence o t s s' st (ap (λ k. lookup k s.transfers) own.0 ∙ a.found) e' in
    let open_again = again m m' peer c s s' t t' w a acc.later found allowed (alive t a.found) in
    (
      rw open_again (retry_session sequence o st t t' s' acc),
      λ number p le other. rw open_again (
          replay_session sequence number o p st t t' s' acc le
            (λ q. is_last_opcode_other t'.inner.last_control_opcode o p acc.at_opcode (other q))),
    )
