-- ===== src/Server/Peers/Invariant.antt =====
-- The invariant of the server's two maps, kept by the cleanup, by the cancelling of a peer's
-- sessions and by every change of a session's inner state.
use clip_ferry.Common.{
  ℕ, ◌≤◌, ◌≡◌, ◌∙◌, ◌⊎◌, refl, sym, subst, ap, true, some, List, [], ◌∷◌, length, arith, bytes,
  bytes_eq, Bool-cases, inl, inr, ltb,
}
use mathlib.Core.Option
use clip_ferry.Common.Map.{
  lookup, modify, retain, Distinct, Entries, Entries-mono, Entries-retain, Entries-modify,
  lookup-modify, lookup-retain, modify-Distinct, retain-Distinct, length-modify, length-retain-le,
}
use clip_ferry.Server.State.{
  ServerState, TransferSession, BeginTransferRecord, SecureMetrics, Moment, count_denied,
}
use clip_ferry.Server.Coverage.History.{IsCoverage}
use clip_ferry.Server.Peers.{
  peer_is_allowed, cancel_for, cancel_all_for, cancel_peer_transfers, ensure_peer_allowed,
  cleanup_expired_sessions,
}

-- A nonce's record stands for a session of the same peer, offer, file and lifetime.
abbrev pub Linked : List (List ℕ × TransferSession) → BeginTransferRecord → Type 0
Linked ts r =
    (t : TransferSession) × (lookup r.transfer_id ts ≡ some t)
    × (t.authorized_peer ≡ r.authorized_peer)
    × (t.offer_id ≡ r.offer_id)
    × (t.file_id ≡ r.file_id)
    × (t.expires_at ≡ r.expires_at)

-- A session stands under its own identifier, and its coverage is well formed.
abbrev pub OwnKey : List ℕ → TransferSession → Type 0
OwnKey k t = (t.transfer_id ≡ k) × IsCoverage t.inner.coverage

pub record IsServer (s : ServerState) : Type 0 where
  pub sessions_distinct : Distinct s.transfers
  pub nonces_distinct : Distinct s.begin_nonces
  pub few_sessions : length s.transfers ≤ 4096
  pub few_nonces : length s.begin_nonces ≤ 4096
  pub sessions : Entries OwnKey s.transfers
  pub records : Entries (λ _ r. Linked s.transfers r) s.begin_nonces

-- `f` changes nothing of a session but its inner state, and keeps the coverage well formed.
pub record KeepsSession (f : TransferSession → TransferSession) : Type 0 where
  pub keeps_peer : (t : TransferSession) → (f t).authorized_peer ≡ t.authorized_peer
  pub keeps_offer : (t : TransferSession) → (f t).offer_id ≡ t.offer_id
  pub keeps_file : (t : TransferSession) → (f t).file_id ≡ t.file_id
  pub keeps_id : (t : TransferSession) → (f t).transfer_id ≡ t.transfer_id
  pub keeps_lifetime : (t : TransferSession) → (f t).expires_at ≡ t.expires_at
  pub keeps_coverage :
      (t : TransferSession) → IsCoverage t.inner.coverage → IsCoverage (f t).inner.coverage

Linked-by :
    (f : TransferSession → TransferSession) (ts ts' : List (List ℕ × TransferSession))
    (r : BeginTransferRecord)
    → KeepsSession f
    → (lookup r.transfer_id ts' ≡ lookup r.transfer_id ts)
      ⊎ (lookup r.transfer_id ts' ≡ Option.map f (lookup r.transfer_id ts))
    → Linked ts r
    → Linked ts' r
Linked-by f ts ts' r v (inl e) (t, found, a, b, c, d) = (t, e ∙ found, a, b, c, d)
Linked-by f ts ts' r v (inr e) (t, found, a, b, c, d) = (
  f t,
  e ∙ ap (Option.map f) found,
  v.keeps_peer t ∙ a,
  v.keeps_offer t ∙ b,
  v.keeps_file t ∙ c,
  v.keeps_lifetime t ∙ d,
)

module _ (f : TransferSession → TransferSession) (v : KeepsSession f) where
  modify_choice :
      (k j : List ℕ) (ts : List (List ℕ × TransferSession))
      → (lookup j (modify k f ts) ≡ lookup j ts)
        ⊎ (lookup j (modify k f ts) ≡ Option.map f (lookup j ts))
  modify_choice k j ts = elim (Bool-cases (bytes_eq k j)) [
    | inl hit ↦ inr (lookup-modify k j f ts ∙ rw hit)
    | inr miss ↦ inl (lookup-modify k j f ts ∙ rw miss)
  ]

  -- A change of one session's inner state.
  pub modify-IsServer :
      (k : List ℕ) (s : ServerState)
      → IsServer s
      → IsServer (record s { transfers = modify k f s.transfers })
  modify-IsServer k s w = record {
    sessions_distinct = modify-Distinct k f s.transfers w.sessions_distinct;
    nonces_distinct = w.nonces_distinct;
    few_sessions = omega (arith, length-modify k f s.transfers, w.few_sessions);
    few_nonces = w.few_nonces;
    sessions =
        Entries-modify OwnKey k f s.transfers
          (λ j t h. (v.keeps_id t ∙ h.0, v.keeps_coverage t h.1)) w.sessions;
    records =
        Entries-mono (λ _ r. Linked s.transfers r) (λ _ r. Linked (modify k f s.transfers) r)
          s.begin_nonces
          (λ _ r h.
            Linked-by f s.transfers (modify k f s.transfers) r v
              (modify_choice k r.transfer_id s.transfers) h)
          w.records;
  }

-- Counters are no part of it.
pub metrics-IsServer :
    (s : ServerState) (n : SecureMetrics) → IsServer s → IsServer (record s { metrics = n })
metrics-IsServer s n w = record {
  sessions_distinct = w.sessions_distinct;
  nonces_distinct = w.nonces_distinct;
  few_sessions = w.few_sessions;
  few_nonces = w.few_nonces;
  sessions = w.sessions;
  records = w.records;
}

module _ (peer : List ℕ) where
  cancel_for_coverage :
      (t : TransferSession) → (cancel_for peer t).inner.coverage ≡ t.inner.coverage
  unfolding cancel_for
  cancel_for_coverage t = ground arith

  cancel_for-KeepsSession : KeepsSession (cancel_for peer)
  unfolding cancel_for
  cancel_for-KeepsSession = record {
    keeps_peer = λ t. ground arith;
    keeps_offer = λ t. ground arith;
    keeps_file = λ t. ground arith;
    keeps_id = λ t. ground arith;
    keeps_lifetime = λ t. ground arith;
    keeps_coverage = λ t h. subst IsCoverage (sym (cancel_for_coverage t)) h;
  }

  pub lookup-cancel_all_for :
      (k : List ℕ) (ts : List (List ℕ × TransferSession))
      → lookup k (cancel_all_for peer ts) ≡ Option.map (cancel_for peer) (lookup k ts)
  unfolding cancel_all_for lookup
  lookup-cancel_all_for k [] = refl
  lookup-cancel_all_for k ((j, t) ∷ ts) = ground (arith, lookup-cancel_all_for k ts)

  cancel_all_for-Distinct :
      (ts : List (List ℕ × TransferSession)) → Distinct ts → Distinct (cancel_all_for peer ts)
  unfolding cancel_all_for
  cancel_all_for-Distinct [] d = tt
  cancel_all_for-Distinct ((j, t) ∷ ts) d = (
    lookup-cancel_all_for j ts ∙ ap (Option.map (cancel_for peer)) d.0,
    cancel_all_for-Distinct ts d.1,
  )

  length-cancel_all_for :
      (ts : List (List ℕ × TransferSession)) → length (cancel_all_for peer ts) ≡ length ts
  unfolding cancel_all_for
  length-cancel_all_for [] = refl
  length-cancel_all_for ((j, t) ∷ ts) = omega (arith, length-cancel_all_for ts)

  cancel_all_for-OwnKey :
      (ts : List (List ℕ × TransferSession))
      → Entries OwnKey ts
      → Entries OwnKey (cancel_all_for peer ts)
  unfolding cancel_all_for
  cancel_all_for-OwnKey [] h = tt
  cancel_all_for-OwnKey ((j, t) ∷ ts) h =
      let v = cancel_for-KeepsSession in
      ((v.keeps_id t ∙ h.0.0, v.keeps_coverage t h.0.1), cancel_all_for-OwnKey ts h.1)

  pub cancel_peer_transfers-IsServer :
      (s : ServerState) → IsServer s → IsServer (cancel_peer_transfers peer s)
  unfolding cancel_peer_transfers
  cancel_peer_transfers-IsServer s w = record {
    sessions_distinct = cancel_all_for-Distinct s.transfers w.sessions_distinct;
    nonces_distinct = w.nonces_distinct;
    few_sessions = omega (arith, length-cancel_all_for s.transfers, w.few_sessions);
    few_nonces = w.few_nonces;
    sessions = cancel_all_for-OwnKey s.transfers w.sessions;
    records =
        Entries-mono (λ _ r. Linked s.transfers r)
          (λ _ r. Linked (cancel_all_for peer s.transfers) r) s.begin_nonces
          (λ _ r h.
            Linked-by (cancel_for peer) s.transfers (cancel_all_for peer s.transfers) r
              cancel_for-KeepsSession (inr (lookup-cancel_all_for r.transfer_id s.transfers)) h)
          w.records;
  }

  pub ensure_peer_allowed-IsServer :
      (m : Moment) (s : ServerState) → IsServer s → IsServer (ensure_peer_allowed m peer s).0
  unfolding ensure_peer_allowed
  ensure_peer_allowed-IsServer m s w = elim (Bool-cases (peer_is_allowed s m peer)) [
    | inl yes_allowed ↦ rw yes_allowed w
    | inr not_allowed ↦
        rw not_allowed (cancel_peer_transfers-IsServer (count_denied s) (metrics-IsServer s _ w))
  ]

-- A record that outlives the cleanup keeps its session, which has the same lifetime.
retain-Linked :
    (now : ℕ) (ts : List (List ℕ × TransferSession)) (r : BeginTransferRecord)
    → Distinct ts
    → ltb now r.expires_at ≡ true
    → Linked ts r
    → Linked (retain (λ t. ltb now t.expires_at) ts) r
retain-Linked now ts r d alive (t, found, a, b, c, e) = (
  t,
  lookup-retain (λ t. ltb now t.expires_at) r.transfer_id ts d ∙ rw (found, e, alive),
  a,
  b,
  c,
  e,
)

pub cleanup_expired_sessions-IsServer :
    (now : ℕ) (s : ServerState) → IsServer s → IsServer (cleanup_expired_sessions now s)
unfolding cleanup_expired_sessions
cleanup_expired_sessions-IsServer now s w =
    let live_session = λ (t : TransferSession). ltb now t.expires_at in
    let live_record = λ (r : BeginTransferRecord). ltb now r.expires_at in
    record {
      sessions_distinct = retain-Distinct live_session s.transfers w.sessions_distinct;
      nonces_distinct = retain-Distinct live_record s.begin_nonces w.nonces_distinct;
      few_sessions = omega (arith, length-retain-le live_session s.transfers, w.few_sessions);
      few_nonces = omega (arith, length-retain-le live_record s.begin_nonces, w.few_nonces);
      sessions = Entries-retain OwnKey OwnKey live_session s.transfers (λ k t _ h. h) w.sessions;
      records =
          Entries-retain (λ _ r. Linked s.transfers r)
            (λ _ r. Linked (retain live_session s.transfers) r) live_record s.begin_nonces
            (λ _ r alive h. retain-Linked now s.transfers r w.sessions_distinct alive h) w.records;
    }
