-- ===== src/Server/Peers/Auth.antt =====
-- What it takes to reach a session, and what revoking a peer's trust does.
use clip_ferry.Common.{
  ℕ, ◌<◌, ◌≡◌, ◌∙◌, ◌↔◌, ◌⊎◌, inl, inr, refl, ap, sym, subst, true, false, some, List, [], ◌∷◌,
  arith, bytes, bytes_eq_iff, Bool-cases, Option-cases, leb,
}
use clip_ferry.Common.Map.{lookup, Entries}
use clip_ferry.Common.Result.{ok, err}
use clip_ferry.Wire.Code.{WireResult, ResponseStatus, denied}
use clip_ferry.Wire.Message.{TransferCredentials}
use clip_ferry.Server.State.{
  ServerState, TransferSession, Moment, M, ◌>>=◌, count_denied, is_active,
}
use clip_ferry.Server.Peers.{
  peer_is_allowed, cancel_for, cancel_all_for, cancel_peer_transfers, ensure_peer_allowed,
  credentials_match, authenticated_session,
}

-- The peer is trusted, and the session that the credentials name is alive and is the peer's own,
-- with the same offer, file, capability and server nonce.
pub record Authenticated (m : Moment) (peer : List ℕ) (c : TransferCredentials) (s : ServerState)
    (t : TransferSession) : Type 0 where
  pub allowed : peer_is_allowed s m peer ≡ true
  pub found : lookup c.transfer_id s.transfers ≡ some t
  pub alive : m.now < t.expires_at
  pub same_peer : t.authorized_peer ≡ peer
  pub same_offer : t.offer_id ≡ c.offer_id
  pub same_file : t.file_id ≡ c.file_id
  pub same_capability : t.capability ≡ c.capability
  pub same_nonce : t.server_nonce ≡ c.server_nonce

credentials_match_iff :
    (peer : List ℕ) (c : TransferCredentials) (t : TransferSession)
    → (credentials_match peer c t ≡ true
        → (t.authorized_peer ≡ peer)
          × (t.offer_id ≡ c.offer_id)
          × (t.file_id ≡ c.file_id)
          × (t.capability ≡ c.capability)
          × (t.server_nonce ≡ c.server_nonce))
      × ((t.authorized_peer ≡ peer)
          → (t.offer_id ≡ c.offer_id)
          → (t.file_id ≡ c.file_id)
          → (t.capability ≡ c.capability)
          → (t.server_nonce ≡ c.server_nonce)
          → credentials_match peer c t ≡ true)
unfolding credentials_match
credentials_match_iff peer c t =
    let a = bytes_eq_iff t.authorized_peer peer in
    let b = bytes_eq_iff t.offer_id c.offer_id in
    let d = bytes_eq_iff t.file_id c.file_id in
    let e = bytes_eq_iff t.capability c.capability in
    let f = bytes_eq_iff t.server_nonce c.server_nonce in
    (λ h. ground (arith, a, b, d, e, f), λ p q r u v. ground (arith, a, b, d, e, f))

session_checks :
    (m : Moment) (peer : List ℕ) (c : TransferCredentials) (s s' : ServerState)
    (t : TransferSession)
    → authenticated_session m peer c s ≡ (s', ok t)
    → (s' ≡ s)
      × (peer_is_allowed s m peer ≡ true)
      × (lookup c.transfer_id s.transfers ≡ some t)
      × (m.now < t.expires_at)
      × (credentials_match peer c t ≡ true)
unfolding authenticated_session
session_checks m peer c s s' t h = ground arith

-- A session is handed out only to the trusted peer that it was issued to, for its own credentials
-- and before it expires, and the server is left as it was.
pub authenticated_session_ok :
    (m : Moment) (peer : List ℕ) (c : TransferCredentials) (s s' : ServerState)
    (t : TransferSession)
    → authenticated_session m peer c s ≡ (s', ok t)
    → (s' ≡ s) × Authenticated m peer c s t
authenticated_session_ok m peer c s s' t h =
    let (same, allowed, found, alive, fits) = session_checks m peer c s s' t h in
    let (a, b, d, e, f) = (credentials_match_iff peer c t).0 fits in
    (
      same,
      record {
        allowed = allowed;
        found = found;
        alive = alive;
        same_peer = a;
        same_offer = b;
        same_file = d;
        same_capability = e;
        same_nonce = f;
      },
    )

pub authenticated_session_complete :
    (m : Moment) (peer : List ℕ) (c : TransferCredentials) (s : ServerState) (t : TransferSession)
    → Authenticated m peer c s t
    → authenticated_session m peer c s ≡ (s, ok t)
unfolding authenticated_session
authenticated_session_complete m peer c s t a = ground (
  arith,
  (credentials_match_iff peer c t).1 a.same_peer a.same_offer a.same_file a.same_capability
      a.same_nonce,
)

-- A session is handed out just where one is found under the credentials' transfer id that is not expired
-- and was issued to that peer for the offer, file, capability and server nonce of the credentials, and the
-- peer is trusted; the server is left as it was.
pub authenticated_session_iff :
    (m : Moment) (peer : List ℕ) (c : TransferCredentials) (s s' : ServerState)
    (t : TransferSession)
    → (authenticated_session m peer c s ≡ (s', ok t)) ↔ ((s' ≡ s) × Authenticated m peer c s t)
authenticated_session_iff m peer c s s' t = (
  λ e. authenticated_session_ok m peer c s s' t e,
  λ (same, a).
      authenticated_session_complete m peer c s t a
      ∙ ap (λ (x : ServerState). (x, ok t)) (sym same),
)

-- No session of the peer is running or paused.
abbrev pub NoneActive : List ℕ → List (List ℕ × TransferSession) → Type 0
NoneActive peer = Entries (λ _ t. t.authorized_peer ≡ peer → is_active t.inner.state ≡ false)

cancel_for_inactive :
    (peer : List ℕ) (t : TransferSession)
    → (cancel_for peer t).authorized_peer ≡ peer
    → is_active (cancel_for peer t).inner.state ≡ false
unfolding cancel_for is_active
cancel_for_inactive peer t e = ground (arith, bytes_eq_iff t.authorized_peer peer)

cancel_all_for-NoneActive :
    (peer : List ℕ) (ts : List (List ℕ × TransferSession))
    → NoneActive peer (cancel_all_for peer ts)
unfolding cancel_all_for
cancel_all_for-NoneActive peer [] = tt
cancel_all_for-NoneActive peer ((k, t) ∷ ts) =
    (cancel_for_inactive peer t, cancel_all_for-NoneActive peer ts)

-- A peer that is not the authorized one, or whose trust record the store no longer loads, is
-- refused, and no session of it is left running or paused.
pub ensure_peer_allowed_revoked :
    (m : Moment) (peer : List ℕ) (s : ServerState)
    → peer_is_allowed s m peer ≡ false
    → ((ensure_peer_allowed m peer s).1 ≡ err denied)
      × NoneActive peer (ensure_peer_allowed m peer s).0.transfers
unfolding ensure_peer_allowed cancel_peer_transfers
ensure_peer_allowed_revoked m peer s h = rw h (refl, cancel_all_for-NoneActive peer s.transfers)

-- A refusal changes the server no more than the trust check and the count of denials do.
authenticated_session_state :
    (m : Moment) (peer : List ℕ) (c : TransferCredentials) (s : ServerState)
    → ((authenticated_session m peer c s).0 ≡ (ensure_peer_allowed m peer s).0)
      ⊎ ((authenticated_session m peer c s).0 ≡ count_denied s)
unfolding authenticated_session ensure_peer_allowed
authenticated_session_state m peer c s = elim (Bool-cases (peer_is_allowed s m peer)) [
  | inr revoked ↦ inl (ground arith)
  | inl allowed ↦ elim (Option-cases (lookup c.transfer_id s.transfers)) [
    | inl gone ↦ inr (ground arith)
    | inr (t, found) ↦ elim (Bool-cases (leb t.expires_at m.now)) [
      | inl over ↦ inl (ground arith)
      | inr live ↦ elim (Bool-cases (credentials_match peer c t)) [
        | inl fits ↦ inl (ground arith)
        | inr other ↦ inr (ground arith)
      ]
    ]
  ]
]

pub Result-cases :
    {A : Type 0} (r : WireResult A) → ((a : A) × (r ≡ ok a)) ⊎ ((e : ResponseStatus) × (r ≡ err e))
Result-cases (ok a) = inl (a, refl)
Result-cases (err e) = inr (e, refl)

-- What holds of the server after the checks of a session and what is done with it.
pub session_rule {ℓ} :
    {A : Type 0} (P : ServerState → Type ℓ) (m : Moment) (peer : List ℕ) (c : TransferCredentials)
    (f : TransferSession → M A) (s : ServerState)
    → P (ensure_peer_allowed m peer s).0
    → P (count_denied s)
    → ((t : TransferSession) → Authenticated m peer c s t → P (f t s).0)
    → P (◌>>=◌ (authenticated_session m peer c) f s).0
session_rule P m peer c f s trust denial go =
    elim (Result-cases (authenticated_session m peer c s).1) [
      | inl (t, e) ↦
          let whole : authenticated_session m peer c s
              ≡ ((authenticated_session m peer c s).0, ok t) =
            ap (λ r. ((authenticated_session m peer c s).0, r)) e in
          let (same, a) =
            authenticated_session_ok m peer c s (authenticated_session m peer c s).0 t whole in
          rw e (subst (λ z. P (f t z).0) (sym same) (go t a))
      | inr (x, e) ↦ rw e (elim (authenticated_session_state m peer c s) [
        | inl q ↦ rw q trust
        | inr q ↦ rw q denial
      ])
    ]

-- A result behind the checks of a session.
pub session_ok :
    {A : Type 0} (m : Moment) (peer : List ℕ) (c : TransferCredentials) (f : TransferSession → M A)
    (s s' : ServerState) (x : A)
    → ◌>>=◌ (authenticated_session m peer c) f s ≡ (s', ok x)
    → (t : TransferSession) × Authenticated m peer c s t × (f t s ≡ (s', ok x))
session_ok {A} m peer c f s s' x h = elim (Result-cases (authenticated_session m peer c s).1) [
  | inl (t, e) ↦
      let whole : authenticated_session m peer c s ≡ ((authenticated_session m peer c s).0, ok t) =
        ap (λ r. ((authenticated_session m peer c s).0, r)) e in
      let (same, a) =
        authenticated_session_ok m peer c s (authenticated_session m peer c s).0 t whole in
      (t, a, subst (λ z. f t z ≡ (s', ok x)) same (rw e at h))
  | inr (y, e) ↦ absurd (refused y (ap (λ p. p.1) (rw e at h)))
]
  where
    refused : (y : ResponseStatus) → ◌≡◌ {A = WireResult A} (err y) (ok x) → ⊥
    refused y q = cc
