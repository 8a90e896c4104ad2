-- ===== src/Server/Evolve.antt =====
-- How a session may change while it stands in the server's map: the edges of its state machine
-- (`RemoteTransferState` in src/clipboard/secure_transfer.rs), identity, and sequence numbers.
use clip_ferry.Common.{
  ℕ, ◌≤◌, ◌≡◌, ◌∙◌, inl, inr, refl, ap, true, false, ◌&&◌, some, List, arith, bytes, bytes_eq,
  bytes_eq_iff, Bool-cases,
}
use mathlib.Core.Option
use mathlib.Core.Option.{some-injective}
use clip_ferry.Common.Map.{lookup, modify, lookup-modify}
use clip_ferry.Wire.Code.{RemoteTransferState, running, paused, completed}
use clip_ferry.Server.State.{ServerState, TransferSession, TransferInner, Moment, is_active}
use clip_ferry.Server.Peers.{
  peer_is_allowed, cancel_for, cancel_peer_transfers, ensure_peer_allowed,
}
use clip_ferry.Server.Peers.Invariant.{lookup-cancel_all_for}

-- One step of the machine. Cancelled and completed are final.
pub data Edge : RemoteTransferState → RemoteTransferState → Type 0 where
  stays : {x : RemoteTransferState} → Edge x x
  pauses : Edge running paused
  resumes : Edge paused running
  cancels : {x : RemoteTransferState} → is_active x ≡ true → Edge x RemoteTransferState.cancelled
  completes : Edge running completed

pub data Reach (x : RemoteTransferState) : RemoteTransferState → Type 0 where
  here : Reach x x
  next : {y z : RemoteTransferState} → Reach x y → Edge y z → Reach x z

pub Reach-trans : {x y z : RemoteTransferState} → Reach x y → Reach y z → Reach x z
Reach-trans p here = p
Reach-trans p (next q e) = next (Reach-trans p q) e

pub Edge_final : {x y : RemoteTransferState} → Edge x y → is_active x ≡ false → y ≡ x
unfolding is_active
Edge_final stays h = refl
Edge_final pauses h = cc
Edge_final resumes h = cc
Edge_final (cancels a) h = absurd (ground arith)
Edge_final completes h = cc

pub Reach-final : {x y : RemoteTransferState} → Reach x y → is_active x ≡ false → y ≡ x
Reach-final here h = refl
Reach-final (next r e) h = let back = Reach-final r h in Edge_final e (ap is_active back ∙ h) ∙ back

-- The same session at a later time.
pub record Later (t t' : TransferSession) : Type 0 where
  pub reached : Reach t.inner.state t'.inner.state
  pub same_peer : t'.authorized_peer ≡ t.authorized_peer
  pub same_offer : t'.offer_id ≡ t.offer_id
  pub same_file : t'.file_id ≡ t.file_id
  pub same_id : t'.transfer_id ≡ t.transfer_id
  pub same_capability : t'.capability ≡ t.capability
  pub same_nonce : t'.server_nonce ≡ t.server_nonce
  pub same_lifetime : t'.expires_at ≡ t.expires_at
  pub sequence_rises : t.inner.last_control_sequence ≤ t'.inner.last_control_sequence

pub Later-refl : (t : TransferSession) → Later t t
Later-refl t = record {
  reached = here;
  same_peer = refl;
  same_offer = refl;
  same_file = refl;
  same_id = refl;
  same_capability = refl;
  same_nonce = refl;
  same_lifetime = refl;
  sequence_rises = omega arith;
}

pub Later-trans : (t u v : TransferSession) → Later t u → Later u v → Later t v
Later-trans t u v a b = record {
  reached = Reach-trans a.reached b.reached;
  same_peer = b.same_peer ∙ a.same_peer;
  same_offer = b.same_offer ∙ a.same_offer;
  same_file = b.same_file ∙ a.same_file;
  same_id = b.same_id ∙ a.same_id;
  same_capability = b.same_capability ∙ a.same_capability;
  same_nonce = b.same_nonce ∙ a.same_nonce;
  same_lifetime = b.same_lifetime ∙ a.same_lifetime;
  sequence_rises = omega (arith, a.sequence_rises, b.sequence_rises);
}

-- A change of the inner state alone.
pub Later-inner :
    (t : TransferSession) (i : TransferInner)
    → Reach t.inner.state i.state
    → t.inner.last_control_sequence ≤ i.last_control_sequence
    → Later t (record t { inner = i })
Later-inner t i r h = record {
  reached = r;
  same_peer = refl;
  same_offer = refl;
  same_file = refl;
  same_id = refl;
  same_capability = refl;
  same_nonce = refl;
  same_lifetime = refl;
  sequence_rises = h;
}

-- Every session is still there, and is the same one at a later time.
abbrev pub Evolves : ServerState → ServerState → Type 0
Evolves s s' =
    (k : List ℕ) (t : TransferSession)
    → lookup k s.transfers ≡ some t
    → (t' : TransferSession) × (lookup k s'.transfers ≡ some t') × Later t t'

pub Evolves-refl : (s s' : ServerState) → s'.transfers ≡ s.transfers → Evolves s s'
Evolves-refl s s' e k t found = (t, ap (lookup k) e ∙ found, Later-refl t)

pub Evolves-trans : (s u v : ServerState) → Evolves s u → Evolves u v → Evolves s v
Evolves-trans s u v p q k t found =
    let (t', found', a) = p k t found in
    let (t'', found'', b) = q k t' found' in (t'', found'', Later-trans t t' t'' a b)

-- One session is changed.
pub Evolves-modify :
    (k : List ℕ) (f : TransferSession → TransferSession) (s s' : ServerState)
    → ((t : TransferSession) → lookup k s.transfers ≡ some t → Later t (f t))
    → s'.transfers ≡ modify k f s.transfers
    → Evolves s s'
Evolves-modify k f s s' good e j t found = elim (Bool-cases (bytes_eq k j)) [
  | inl hit ↦
      let here_found : lookup k s.transfers ≡ some t =
        ap (λ i. lookup i s.transfers) ((bytes_eq_iff k j).0 hit) ∙ found in
      (f t, ap (lookup j) e ∙ lookup-modify k j f s.transfers ∙ rw (hit, found), good t here_found)
  | inr miss ↦ (t, ap (lookup j) e ∙ lookup-modify k j f s.transfers ∙ rw miss found, Later-refl t)
]

cancel_for-Later : (peer : List ℕ) (t : TransferSession) → Later t (cancel_for peer t)
unfolding cancel_for
cancel_for-Later peer t =
    elim (Bool-cases (bytes_eq t.authorized_peer peer && is_active t.inner.state)) [
      | inl hit ↦ rw hit (Later-inner t _ (next here (cancels (ground arith))) (omega arith))
      | inr miss ↦ rw miss (Later-refl t)
    ]

pub ensure_peer_allowed-Evolves :
    (m : Moment) (peer : List ℕ) (s : ServerState) → Evolves s (ensure_peer_allowed m peer s).0
unfolding ensure_peer_allowed cancel_peer_transfers
ensure_peer_allowed-Evolves m peer s = elim (Bool-cases (peer_is_allowed s m peer)) [
  | inl allowed ↦ rw allowed (Evolves-refl s s refl)
  | inr revoked ↦ rw revoked (λ k t found. (
    cancel_for peer t,
    lookup-cancel_all_for peer k s.transfers ∙ ap (Option.map (cancel_for peer)) found,
    cancel_for-Later peer t,
  ))
]
