-- ===== src/Server/Read/Same.antt =====
-- The session and the offer behind the wait for a paused transfer.
use clip_ferry.Common.{
  ℕ, ◌≡◌, ◌∙◌, refl, inl, inr, sym, ap, subst, true, false, List, [], ◌∷◌, arith,
  bytes as byte_lists, Bool-cases, Option-cases, leb, ◌&&◌, not, All,
}
use clip_ferry.Common.Map.{lookup}
use clip_ferry.Common.Result.{ok}
use clip_ferry.Server.State.{ServerState, TransferSession, Moment}
use clip_ferry.Server.Peers.{peer_is_allowed}
use clip_ferry.Server.Read.{
  Turn, is_paused, held, pause_guard, Waited, resumed, still_paused, blocked, wait_while_paused,
}

-- What other threads do leaves the server's offer as it is.
abbrev pub KeepsOffer : (ServerState → ServerState) → Type 0
KeepsOffer f = (s : ServerState) → (f s).offered ≡ s.offered

-- The same session object, whatever has become of its `inner`.
pub record SameSession (t u : TransferSession) : Type 0 where
  pub same_id : u.transfer_id ≡ t.transfer_id
  pub same_file : u.file_id ≡ t.file_id
  pub same_offer : u.offer_id ≡ t.offer_id
  pub same_peer : u.authorized_peer ≡ t.authorized_peer
  pub same_lifetime : u.expires_at ≡ t.expires_at

SameSession-refl : (t : TransferSession) → SameSession t t
SameSession-refl t = record {
  same_id = refl;
  same_file = refl;
  same_offer = refl;
  same_peer = refl;
  same_lifetime = refl;
}

SameSession-trans : (t u v : TransferSession) → SameSession t u → SameSession u v → SameSession t v
SameSession-trans t u v a b = record {
  same_id = b.same_id ∙ a.same_id;
  same_file = b.same_file ∙ a.same_file;
  same_offer = b.same_offer ∙ a.same_offer;
  same_peer = b.same_peer ∙ a.same_peer;
  same_lifetime = b.same_lifetime ∙ a.same_lifetime;
}

held-SameSession : (t : TransferSession) (s : ServerState) → SameSession t (held t s)
unfolding held
held-SameSession t s = elim (Option-cases (lookup t.transfer_id s.transfers)) [
  | inl gone ↦ rw (gone, held) (SameSession-refl t)
  | inr (u, found) ↦
      rw (found, held)
        (record {
          same_id = refl;
          same_file = refl;
          same_offer = refl;
          same_peer = refl;
          same_lifetime = refl;
        })
]

-- What the loop over a paused session ends with: that session, with the offer as it was.
abbrev pub AtEnd : TransferSession → Waited → Type 0
AtEnd t (resumed u) = (is_paused u.inner.state ≡ false) × SameSession t u
AtEnd t (still_paused u) = is_paused u.inner.state ≡ true
AtEnd t blocked = Unit

AtEnd-later : (t u : TransferSession) (w : Waited) → SameSession t u → AtEnd u w → AtEnd t w
AtEnd-later t u (resumed v) a (h, b) = (h, SameSession-trans t u v a b)
AtEnd-later t u (still_paused v) a h = h
AtEnd-later t u blocked a h = tt

pause_guard-offered :
    (peer : List ℕ) (m : Moment) (t : TransferSession) (s : ServerState)
    → (pause_guard peer m t s).0.offered ≡ s.offered
unfolding pause_guard
pause_guard-offered peer m t s = elim (Bool-cases (peer_is_allowed s m peer)) [
  | inl trusted ↦ elim (Bool-cases (leb t.expires_at m.now)) [
    | inl late ↦ rw (trusted, late) refl
    | inr live ↦ rw (trusted, live) refl
  ]
  | inr revoked ↦ rw revoked refl
]

pub wait-AtEnd :
    (peer : List ℕ) (m : Moment) (turns : List Turn) (t : TransferSession) (s s' : ServerState)
    (w : Waited)
    → All (λ (turn : Turn). KeepsOffer turn.others) turns
    → wait_while_paused peer m turns t s ≡ (s', ok w)
    → AtEnd t w × (s'.offered ≡ s.offered)
unfolding wait_while_paused pause_guard
wait-AtEnd peer m [] t s s' w k e = elim (Bool-cases (is_paused t.inner.state)) [
  | inl still ↦ elim (Bool-cases (peer_is_allowed s m peer && not (leb t.expires_at m.now))) [
    | inl fine ↦
        let same : blocked ≡ w = ground arith in
        let there : s ≡ s' = ground arith in
        (subst (AtEnd t) same tt, ap (λ (x : ServerState). x.offered) (sym there))
    | inr stopped ↦ absurd (ground arith)
  ]
  | inr running_now ↦
      let same : resumed t ≡ w = ground arith in
      let there : s ≡ s' = ground arith in
      (
        subst (AtEnd t) same (running_now, SameSession-refl t),
        ap (λ (x : ServerState). x.offered) (sym there),
      )
]
wait-AtEnd peer m (turn ∷ turns) t s s' w (k, ks) e = elim (Bool-cases (is_paused t.inner.state)) [
  | inl still ↦ elim (Bool-cases (peer_is_allowed s m peer && not (leb t.expires_at m.now))) [
    | inl fine ↦
        elim (Bool-cases (turn.timed_out && is_paused (held t (turn.others s)).inner.state)) [
          | inl late ↦
              let same : still_paused (held t (turn.others s)) ≡ w = ground arith in
              let there : turn.others s ≡ s' = ground arith in
              let state : is_paused (held t (turn.others s)).inner.state ≡ true = ground arith in
              (subst (AtEnd t) same state, ap (λ (x : ServerState). x.offered) (sym there) ∙ k s)
          | inr woken ↦
              let u = held t (turn.others s) in
              let (end, offer) =
                wait-AtEnd peer turn.moment turns u (turn.others s) s' w ks (ground arith) in
              (AtEnd-later t u w (held-SameSession t (turn.others s)) end, offer ∙ k s)
        ]
    | inr stopped ↦ absurd (ground arith)
  ]
  | inr running_now ↦
      let same : resumed t ≡ w = ground arith in
      let there : s ≡ s' = ground arith in
      (
        subst (AtEnd t) same (running_now, SameSession-refl t),
        ap (λ (x : ServerState). x.offered) (sym there),
      )
]
