-- ===== src/Server/Read/Invariant.antt =====
-- ReadRange keeps the server well formed, if what other threads do meanwhile does.
use clip_ferry.Common.{
  ℕ, inl, inr, List, [], ◌∷◌, length, take, All, bytes, Bool-cases, Option-cases, leb, ◌&&◌, min,
  ◌-◌,
}
use clip_ferry.Common.Map.{lookup}
use clip_ferry.Wire.Message.{TransferCredentials, max_secure_range_bytes}
use clip_ferry.Offer.Manifest.{manifest_entry}
use clip_ferry.Server.Coverage.History.{note-IsCoverage}
use clip_ferry.Server.State.{ServerState, TransferSession, Moment, is_active}
use clip_ferry.Server.Peers.{peer_is_allowed, ensure_peer_allowed}
use clip_ferry.Server.Peers.Auth.{Result-cases, session_rule}
use clip_ferry.Server.Peers.Invariant.{IsServer, metrics-IsServer, ensure_peer_allowed-IsServer}
use clip_ferry.Server.Control.Machine.{change_session-IsServer}
use clip_ferry.Server.Read.{
  Turn, is_paused, is_cancelled, held, enter_read, pause_guard, Waited, resumed, still_paused,
  blocked, wait_while_paused, note_read, finish_read, serve_range, after_wait, read_session,
  guarded_read, read_range, cancelled_inner,
}

abbrev pub KeepsServer : (ServerState → ServerState) → Type 0
KeepsServer f = (s : ServerState) → IsServer s → IsServer (f s)

pause_guard-IsServer :
    (peer : List ℕ) (m : Moment) (t : TransferSession) (s : ServerState)
    → IsServer s
    → IsServer (pause_guard peer m t s).0
unfolding pause_guard
pause_guard-IsServer peer m t s w = elim (Bool-cases (peer_is_allowed s m peer)) [
  | inl allowed ↦ elim (Bool-cases (leb t.expires_at m.now)) [
    | inl late ↦ rw (allowed, late) w
    | inr live ↦ rw (allowed, live) w
  ]
  | inr revoked ↦
      rw revoked (
        metrics-IsServer _ _ (change_session-IsServer t.transfer_id cancelled_inner s (λ i v. v) w))
]

wait-IsServer :
    (peer : List ℕ) (m : Moment) (turns : List Turn) (t : TransferSession) (s : ServerState)
    → All (λ (turn : Turn). KeepsServer turn.others) turns
    → IsServer s
    → IsServer (wait_while_paused peer m turns t s).0
unfolding wait_while_paused
wait-IsServer peer m [] t s k w = elim (Bool-cases (is_paused t.inner.state)) [
  | inl still ↦ elim (Result-cases (pause_guard peer m t s).1) [
    | inl (u, e) ↦ rw (still, e) (pause_guard-IsServer peer m t s w)
    | inr (x, e) ↦ rw (still, e) (pause_guard-IsServer peer m t s w)
  ]
  | inr going ↦ rw going w
]
wait-IsServer peer m (turn ∷ turns) t s (k, ks) w =
    let s1 = (pause_guard peer m t s).0 in
    let w1 = pause_guard-IsServer peer m t s w in
    let s2 = turn.others s1 in
    elim (Bool-cases (is_paused t.inner.state)) [
      | inl still ↦ elim (Result-cases (pause_guard peer m t s).1) [
        | inl (u, e) ↦ elim (Bool-cases (turn.timed_out && is_paused (held t s2).inner.state)) [
          | inl late ↦ rw (still, e, late) (k s1 w1)
          | inr woken ↦
              rw (still, e, woken)
                (wait-IsServer peer turn.moment turns (held t s2) s2 ks (k s1 w1))
        ]
        | inr (x, e) ↦ rw (still, e) w1
      ]
      | inr going ↦ rw going w
    ]

finish_read-IsServer :
    (m : Moment) (peer : List ℕ) (offset reported : ℕ) (data_read : List ℕ) (t : TransferSession)
    (s : ServerState)
    → IsServer s
    → IsServer (finish_read m peer offset reported data_read t s).0
unfolding finish_read
finish_read-IsServer m peer offset reported data_read t s w =
    elim (Bool-cases (peer_is_allowed s m peer)) [
      | inl allowed ↦ elim (Bool-cases (leb t.expires_at m.now)) [
        | inl late ↦ rw (allowed, late) w
        | inr live ↦ elim (Bool-cases (is_cancelled t.inner.state)) [
          | inl gone ↦ rw (allowed, live, gone) w
          | inr there ↦
              rw (allowed, live, there)
                (metrics-IsServer _ _ (
                  change_session-IsServer t.transfer_id (note_read offset reported) s
                    (λ i v. note-IsCoverage i.coverage offset reported v) w))
        ]
      ]
      | inr revoked ↦ elim (Bool-cases (is_active t.inner.state)) [
        | inl active ↦
            rw (revoked, active)
              (metrics-IsServer _ _
                (change_session-IsServer t.transfer_id cancelled_inner s (λ i v. v) w))
        | inr ended ↦ rw (revoked, ended) w
      ]
    ]

-- Behind the second check of the peer.
serve_range-IsServer :
    (m : Moment) (finish : Turn) (peer : List ℕ) (offset requested : ℕ) (t : TransferSession)
    (s : ServerState)
    → KeepsServer finish.others
    → IsServer s
    → IsServer (serve_range m finish peer offset requested t s).0
unfolding serve_range
serve_range-IsServer m finish peer offset requested t s k w =
    let s1 = (ensure_peer_allowed m peer s).0 in
    let w1 = ensure_peer_allowed-IsServer peer m s w in
    elim (Bool-cases (leb t.expires_at m.now)) [
      | inl late ↦ rw late w
      | inr live ↦ elim (Bool-cases (is_cancelled t.inner.state)) [
        | inl gone ↦ rw (live, gone) w
        | inr there ↦ elim (Result-cases (ensure_peer_allowed m peer s).1) [
          | inr (x, e) ↦ rw (live, there, e) w1
          | inl (u, e) ↦ elim (Option-cases (lookup t.file_id s1.offered.sources)) [
            | inl no_source ↦ rw (live, there, e, no_source) w1
            | inr (source, e₁) ↦
                elim (Option-cases (manifest_entry t.file_id s1.offered.manifest.entries)) [
                  | inl no_entry ↦ rw (live, there, e, e₁, no_entry) w1
                  | inr (entry, e₂) ↦
                      let count = min (entry.descriptor.size - offset) requested in
                      elim (Option-cases (source offset count)) [
                        | inl changed ↦ rw (live, there, e, e₁, e₂, changed) w1
                        | inr (data_read, e₃) ↦
                            rw (live, there, e, e₁, e₂, e₃)
                              (finish_read-IsServer finish.moment peer offset (length data_read)
                                (take count data_read) (held t (finish.others s1))
                                (finish.others s1) (k s1 w1))
                      ]
                ]
          ]
        ]
      ]
    ]

after_wait-IsServer :
    (serve : Moment) (finish : Turn) (peer : List ℕ) (offset requested : ℕ) (w : Waited)
    (s : ServerState)
    → KeepsServer finish.others
    → IsServer s
    → IsServer (after_wait serve finish peer offset requested w s).0
unfolding after_wait
after_wait-IsServer serve finish peer offset requested (resumed t) s k v =
    let there = serve_range-IsServer serve finish peer offset requested t s k v in
    elim (Result-cases (serve_range serve finish peer offset requested t s).1) [
      | inl (x, e) ↦ rw e there
      | inr (x, e) ↦ rw e there
    ]
after_wait-IsServer serve finish peer offset requested (still_paused t) s k v = v
after_wait-IsServer serve finish peer offset requested blocked s k v = v

read_session-IsServer :
    (m : Moment) (turns : List Turn) (serve : Moment) (finish : Turn) (peer : List ℕ)
    (offset requested : ℕ) (t : TransferSession) (s : ServerState)
    → All (λ (turn : Turn). KeepsServer turn.others) turns
    → KeepsServer finish.others
    → IsServer s
    → IsServer (read_session m turns serve finish peer offset requested t s).0
unfolding read_session
read_session-IsServer m turns serve finish peer offset requested t s ks k v =
    let v1 = wait-IsServer peer m turns t s ks v in
    elim (Result-cases (wait_while_paused peer m turns t s).1) [
      | inl (x, e) ↦ rw e (after_wait-IsServer serve finish peer offset requested x _ k v1)
      | inr (x, e) ↦ rw e v1
    ]

pub read_range-IsServer :
    (m : Moment) (turns : List Turn) (serve : Moment) (finish : Turn) (peer : List ℕ)
    (c : TransferCredentials) (offset requested : ℕ) (s : ServerState)
    → All (λ (turn : Turn). KeepsServer turn.others) turns
    → KeepsServer finish.others
    → IsServer s
    → IsServer (read_range m turns serve finish peer c offset requested s).0
unfolding read_range guarded_read
read_range-IsServer m turns serve finish peer c offset requested s ks k v =
    elim (Bool-cases (leb requested max_secure_range_bytes)) [
      | inl within ↦ rw within (
          session_rule IsServer m peer c (guarded_read m turns serve finish peer offset requested) s
            (ensure_peer_allowed-IsServer peer m s v) (metrics-IsServer s _ v)
            λ t a. metrics-IsServer _ _ (
              read_session-IsServer m turns serve finish peer offset requested t (enter_read s) ks k
                (metrics-IsServer s _ v)))
      | inr beyond ↦ rw beyond v
    ]
