-- ===== src/Server/Begin/Invariant.antt =====
-- `begin_transfer` keeps the server's invariant: the maps stay bounded, and each nonce that is
-- remembered has its session.
use clip_ferry.Common.{
  ℕ, ◌+◌, ◌<◌, ◌≡◌, ◌∙◌, ◌⊎◌, inl, inr, refl, none, some, List, length, arith, bytes, bytes_eq,
  bytes_eq_iff, Bool-cases, Option-cases, leb, ltb, ◌||◌, ◌&&◌,
}
use clip_ferry.Common.Map.{
  lookup, insert, Entries-mono, Entries-insert, lookup-insert, insert-Distinct,
  length-insert_absent, lookup-retain,
}
use clip_ferry.Server.State.{
  ServerState, TransferSession, BeginTransferRecord, Moment, count_denied,
}
use clip_ferry.Server.Coverage.History.{no_coverage-IsCoverage}
use clip_ferry.Server.Peers.{peer_is_allowed, cleanup_expired_sessions, ensure_peer_allowed}
use clip_ferry.Server.Peers.Invariant.{
  IsServer, Linked, OwnKey, metrics-IsServer, cleanup_expired_sessions-IsServer,
  ensure_peer_allowed-IsServer,
}
use clip_ferry.Server.Begin.{
  Draw, new_session, new_record, register, fresh_begin, repeat_begin, record_matches, begin_cleaned,
  begin_transfer, active_transfers, max_active_transfers, max_begin_nonces,
}

-- There is room for one more session.
abbrev pub HasRoom : ServerState → Type 0
HasRoom s =
    (active_transfers s.transfers < 64)
    × (length s.transfers < 4096)
    × (length s.begin_nonces < 4096)

register-IsServer :
    (nonce : List ℕ) (t : TransferSession) (s : ServerState)
    → IsServer s
    → HasRoom s
    → OwnKey t.transfer_id t
    → lookup t.transfer_id s.transfers ≡ none
    → lookup nonce s.begin_nonces ≡ none
    → IsServer (register nonce t s)
unfolding register
register-IsServer nonce t s w (_, room, room') own absent unused =
    let r : BeginTransferRecord =
      new_record t.authorized_peer t.offer_id t.file_id t.transfer_id t.expires_at in
    let ts : List (List ℕ × TransferSession) = insert t.transfer_id t s.transfers in
    record {
      sessions_distinct = insert-Distinct t.transfer_id t s.transfers w.sessions_distinct;
      nonces_distinct = insert-Distinct nonce r s.begin_nonces w.nonces_distinct;
      few_sessions = omega (arith, length-insert_absent t.transfer_id t s.transfers absent);
      few_nonces = omega (arith, length-insert_absent nonce r s.begin_nonces unused);
      sessions = Entries-insert OwnKey t.transfer_id t s.transfers own w.sessions;
      records =
          Entries-insert (λ _ q. Linked ts q) nonce r s.begin_nonces
            (
              t,
              lookup-insert t.transfer_id t.transfer_id t s.transfers
                  ∙ rw ((bytes_eq_iff t.transfer_id t.transfer_id).1 refl),
              refl,
              refl,
              refl,
              refl,
            )
            (Entries-mono (λ _ q. Linked s.transfers q) (λ _ q. Linked ts q) s.begin_nonces
              (λ _ q h. Linked-insert t s.transfers q absent h) w.records);
    }
  where
    Linked-insert :
        (t : TransferSession) (ts : List (List ℕ × TransferSession)) (q : BeginTransferRecord)
        → lookup t.transfer_id ts ≡ none
        → Linked ts q
        → Linked (insert t.transfer_id t ts) q
    Linked-insert t ts q absent (u, found, a, b, c, d) = (
      u,
      ground (
        arith,
        lookup-insert t.transfer_id q.transfer_id t ts,
        bytes_eq_iff t.transfer_id q.transfer_id,
      ),
      a,
      b,
      c,
      d,
    )

module _ (now later : ℕ) (draw : Draw) (peer offer file nonce : List ℕ) (s : ServerState) where
  abbrev drawn : List ℕ → List ℕ → List ℕ → TransferSession
  drawn id capability server_nonce =
      new_session peer offer file id capability server_nonce (now + s.transfer_ttl)

  -- A new nonce either changes nothing or registers one session under a fresh identifier.
  pub fresh_begin_state :
      ((fresh_begin now later draw peer offer file nonce s).0 ≡ s)
      ⊎ ((id capability server_nonce : List ℕ) × (draw.transfer_id ≡ some id)
          × HasRoom s
          × ((fresh_begin now later draw peer offer file nonce s).0
              ≡ register nonce (drawn id capability server_nonce) s))
  unfolding fresh_begin
  fresh_begin_state = elim (Option-cases draw.transfer_id) [
    | inl no_id ↦ inl (ground arith)
    | inr (id, e₁) ↦ elim (Option-cases draw.capability) [
      | inl no_capability ↦ inl (ground arith)
      | inr (capability, e₂) ↦ elim (Option-cases draw.server_nonce) [
        | inl no_nonce ↦ inl (ground arith)
        | inr (server_nonce, e₃) ↦ elim (Bool-cases (ltb (now + s.transfer_ttl) s.instant_limit)) [
          | inr too_late ↦ inl (ground arith)
          | inl fits ↦
              elim (Bool-cases (
                leb max_active_transfers (active_transfers s.transfers)
                || (leb max_begin_nonces (length s.transfers)
                    || leb max_begin_nonces (length s.begin_nonces)))) [
                      | inl full ↦ inl (ground arith)
                      | inr room ↦ inr (
                        id,
                        capability,
                        server_nonce,
                        e₁,
                        (ground arith, ground arith, ground arith),
                        ground arith,
                      )
                    ]
        ]
      ]
    ]
  ]

-- The generator does not repeat an identifier that is in use.
abbrev pub IsFresh : Draw → ServerState → Type 0
IsFresh draw s = (id : List ℕ) → draw.transfer_id ≡ some id → lookup id s.transfers ≡ none

fresh_begin-IsServer :
    (now later : ℕ) (draw : Draw) (peer offer file nonce : List ℕ) (s : ServerState)
    → IsServer s
    → IsFresh draw s
    → lookup nonce s.begin_nonces ≡ none
    → IsServer (fresh_begin now later draw peer offer file nonce s).0
fresh_begin-IsServer now later draw peer offer file nonce s w fresh unused =
    elim (fresh_begin_state now later draw peer offer file nonce s) [
      | inl same ↦ rw same w
      | inr (id, capability, server_nonce, e, room, registered) ↦ rw registered (
          register-IsServer nonce
            (drawn now later draw peer offer file nonce s id capability server_nonce) s w room
            (refl, no_coverage-IsCoverage) (fresh id e) unused)
    ]

repeat_begin-IsServer :
    (later : ℕ) (peer offer file : List ℕ) (r : BeginTransferRecord) (s : ServerState)
    → IsServer s
    → IsServer (repeat_begin later peer offer file r s).0
unfolding repeat_begin
repeat_begin-IsServer later peer offer file r s w =
    elim (Bool-cases (record_matches peer offer file r)) [
      | inl same ↦ elim (Option-cases (lookup r.transfer_id s.transfers)) [
        | inl gone ↦ rw (same, gone, repeat_begin) (metrics-IsServer s _ w)
        | inr (t, found) ↦ rw (same, found, repeat_begin) w
      ]
      | inr other ↦ rw other (metrics-IsServer s _ w)
    ]

begin_cleaned-IsServer :
    (now later : ℕ) (draw : Draw) (peer offer file nonce : List ℕ) (s : ServerState)
    → IsServer s
    → IsFresh draw s
    → IsServer (begin_cleaned now later draw peer offer file nonce s).0
unfolding begin_cleaned
begin_cleaned-IsServer now later draw peer offer file nonce s w fresh =
    elim (Option-cases (lookup nonce s.begin_nonces)) [
      | inl unused ↦
          rw (unused, begin_cleaned)
            (fresh_begin-IsServer now later draw peer offer file nonce s w fresh unused)
      | inr (r, known) ↦
          rw (known, begin_cleaned) (repeat_begin-IsServer later peer offer file r s w)
    ]

cleanup-IsFresh :
    (now : ℕ) (draw : Draw) (s : ServerState)
    → IsServer s
    → IsFresh draw s
    → IsFresh draw (cleanup_expired_sessions now s)
unfolding cleanup_expired_sessions
cleanup-IsFresh now draw s w fresh id e =
    lookup-retain (λ t. ltb now t.expires_at) id s.transfers w.sessions_distinct ∙ rw (fresh id e)

-- Where `begin_transfer` gets to, and with what state.
begin_cases :
    (m : Moment) (later : ℕ) (draw : Draw) (peer offer file nonce : List ℕ) (s : ServerState)
    → ((begin_transfer m later draw peer offer file nonce s).0 ≡ (ensure_peer_allowed m peer s).0)
      ⊎ ((begin_transfer m later draw peer offer file nonce s).0 ≡ count_denied s)
      ⊎ (begin_transfer m later draw peer offer file nonce s
          ≡ begin_cleaned m.now later draw peer offer file nonce (cleanup_expired_sessions m.now s))
unfolding begin_transfer ensure_peer_allowed
begin_cases m later draw peer offer file nonce s = elim (Bool-cases (peer_is_allowed s m peer)) [
  | inr revoked ↦ inl (ground arith)
  | inl allowed ↦
      elim (Bool-cases
        (bytes_eq offer s.offered.manifest.offer_id && ltb m.now s.offered.expires_at)) [
          | inr over ↦ inl (ground arith)
          | inl live ↦ elim (Option-cases (lookup file s.offered.sources)) [
            | inl no_source ↦ inr (inl (ground arith))
            | inr (source, e) ↦ inr (inr (ground arith))
          ]
        ]
]

-- If the identifier that is drawn is not in use, BeginTransfer keeps the maps within their limits,
-- each identifier and nonce single, and every remembered nonce tied to a session of the same peer,
-- offer, file and lifetime.
pub begin_transfer-IsServer :
    (m : Moment) (later : ℕ) (draw : Draw) (peer offer file nonce : List ℕ) (s : ServerState)
    → IsServer s
    → IsFresh draw s
    → IsServer (begin_transfer m later draw peer offer file nonce s).0
begin_transfer-IsServer m later draw peer offer file nonce s w fresh =
    elim (begin_cases m later draw peer offer file nonce s) [
      | inl refused ↦ rw refused (ensure_peer_allowed-IsServer peer m s w)
      | inr (inl no_source) ↦ rw no_source (metrics-IsServer s _ w)
      | inr (inr cleaned) ↦ rw cleaned (
          begin_cleaned-IsServer m.now later draw peer offer file nonce
            (cleanup_expired_sessions m.now s) (cleanup_expired_sessions-IsServer m.now s w)
            (cleanup-IsFresh m.now draw s w fresh))
    ]
