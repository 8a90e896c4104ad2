-- ===== src/Server/Begin/Retry.antt =====
-- Retrying BeginTransfer: a request whose answer was lost is sent again with its nonce.
use clip_ferry.Common.{
  ℕ, ◌+◌, ◌<◌, ◌≡◌, ◌∙◌, inl, inr, refl, sym, ap, subst, if◌then◌else◌, ◌≢◌, true, none, some, List,
  arith, bytes, bytes_eq_iff, bytes_eq_refl, Option-cases, ltb, lt→ltb,
}
use mathlib.Core.Path.{subst₂}
use mathlib.Core.Option.{some-injective}
use clip_ferry.Common.Map.{lookup, Entries-lookup, lookup-insert, lookup-retain}
use clip_ferry.Common.Result.{ok, err}
use clip_ferry.Wire.Code.{replay, WireResult}
use clip_ferry.Wire.Message.{TransferCredentials}
use clip_ferry.Server.State.{
  ServerState, TransferSession, BeginTransferRecord, Moment, count_replayed, credentials,
}
use clip_ferry.Server.Peers.{peer_is_allowed, cleanup_expired_sessions, ensure_peer_allowed}
use clip_ferry.Server.Peers.Invariant.{IsServer, Linked, OwnKey}
use clip_ferry.Server.Begin.{
  Draw, new_session, new_record, register, fresh_begin, repeat_begin, record_matches, begin_cleaned,
  begin_transfer,
}
use clip_ferry.Server.Begin.Invariant.{IsFresh, begin_transfer-IsServer}

-- The request passes the checks that stand before the maps.
pub record Admitted (m : Moment) (peer offer file : List ℕ) (s : ServerState) : Type 0 where
  pub allowed : peer_is_allowed s m peer ≡ true
  pub same_offer : offer ≡ s.offered.manifest.offer_id
  pub live : m.now < s.offered.expires_at
  pub has_source : lookup file s.offered.sources ≢ none

Admitted-begin :
    (m : Moment) (later : ℕ) (draw : Draw) (peer offer file nonce : List ℕ) (s : ServerState)
    → Admitted m peer offer file s
    → begin_transfer m later draw peer offer file nonce s
      ≡ begin_cleaned m.now later draw peer offer file nonce (cleanup_expired_sessions m.now s)
unfolding begin_transfer ensure_peer_allowed
Admitted-begin m later draw peer offer file nonce s a =
    ground (arith, bytes_eq_iff offer s.offered.manifest.offer_id)

pub begin_known_nonce :
    (m : Moment) (later : ℕ) (draw : Draw) (peer offer file nonce : List ℕ) (s : ServerState)
    (r : BeginTransferRecord)
    → IsServer s
    → Admitted m peer offer file s
    → lookup nonce s.begin_nonces ≡ some r
    → m.now < r.expires_at
    → (t : TransferSession) × (lookup r.transfer_id s.transfers ≡ some t)
      × (begin_transfer m later draw peer offer file nonce s ≡ (
          if record_matches peer offer file r
          then (cleanup_expired_sessions m.now s, ok (credentials later t))
          else (count_replayed (cleanup_expired_sessions m.now s), err replay)))
unfolding begin_cleaned repeat_begin cleanup_expired_sessions
begin_known_nonce m later draw peer offer file nonce s r w a known alive =
    let (t, found, _, _, _, same_life) =
      Entries-lookup (λ _ q. Linked s.transfers q) nonce s.begin_nonces known w.records in
    let alive' : ltb m.now r.expires_at ≡ true = lt→ltb m.now r.expires_at alive in
    (
      t,
      found,
      Admitted-begin m later draw peer offer file nonce s a
          ∙ ground (
            arith,
            lookup-retain (λ q. ltb m.now q.expires_at) nonce s.begin_nonces w.nonces_distinct,
            lookup-retain (λ u. ltb m.now u.expires_at) r.transfer_id s.transfers
                w.sessions_distinct,
          ),
    )

-- What is left behind by a request that was granted.
record Granted (peer offer file nonce : List ℕ) (later : ℕ) (s : ServerState)
    (c : TransferCredentials) : Type 0 where
  r : BeginTransferRecord
  t : TransferSession
  remembered : lookup nonce s.begin_nonces ≡ some r
  matches : record_matches peer offer file r ≡ true
  found : lookup r.transfer_id s.transfers ≡ some t
  issued : c ≡ credentials later t

repeat_begin_granted :
    (later : ℕ) (peer offer file : List ℕ) (r : BeginTransferRecord) (s s' : ServerState)
    (c : TransferCredentials)
    → repeat_begin later peer offer file r s ≡ (s', ok c)
    → (s' ≡ s)
      × (record_matches peer offer file r ≡ true)
      × (t : TransferSession) × (lookup r.transfer_id s.transfers ≡ some t)
      × (c ≡ credentials later t)
unfolding repeat_begin
repeat_begin_granted later peer offer file r s s' c e =
    elim (Option-cases (lookup r.transfer_id s.transfers)) [
      | inl gone ↦ absurd (ground arith)
      | inr (t, found) ↦ (ground arith, ground arith, t, found, ground arith)
    ]

fresh_begin_granted :
    (now later : ℕ) (draw : Draw) (peer offer file nonce : List ℕ) (s s' : ServerState)
    (c : TransferCredentials)
    → fresh_begin now later draw peer offer file nonce s ≡ (s', ok c)
    → (id capability server_nonce : List ℕ) × (let t =
          new_session peer offer file id capability server_nonce (now + s.transfer_ttl) in
        (s' ≡ register nonce t s) × (c ≡ credentials later t))
unfolding fresh_begin
fresh_begin_granted now later draw peer offer file nonce s s' c e =
    elim (Option-cases draw.transfer_id) [
      | inl no_id ↦ absurd (ground arith)
      | inr (id, e₁) ↦ elim (Option-cases draw.capability) [
        | inl no_capability ↦ absurd (ground arith)
        | inr (capability, e₂) ↦ elim (Option-cases draw.server_nonce) [
          | inl no_nonce ↦ absurd (ground arith)
          | inr (server_nonce, e₃) ↦ (id, capability, server_nonce, (ground arith, ground arith))
        ]
      ]
    ]

register-Granted :
    (later : ℕ) (nonce : List ℕ) (t : TransferSession) (s : ServerState)
    → Granted t.authorized_peer t.offer_id t.file_id nonce later
        (register nonce t s)
        (credentials later t)
unfolding register record_matches
register-Granted later nonce t s =
    let r : BeginTransferRecord =
      new_record t.authorized_peer t.offer_id t.file_id t.transfer_id t.expires_at in
    record {
      r = r;
      t = t;
      remembered = lookup-insert nonce nonce r s.begin_nonces ∙ rw (bytes_eq_refl nonce);
      matches =
          rw (bytes_eq_refl t.authorized_peer, bytes_eq_refl t.offer_id, bytes_eq_refl t.file_id);
      found =
          lookup-insert t.transfer_id t.transfer_id t s.transfers
          ∙ rw (bytes_eq_refl t.transfer_id);
      issued = refl;
    }

begin_cleaned-Granted :
    (now later : ℕ) (draw : Draw) (peer offer file nonce : List ℕ) (s s' : ServerState)
    (c : TransferCredentials)
    → begin_cleaned now later draw peer offer file nonce s ≡ (s', ok c)
    → Granted peer offer file nonce later s' c
unfolding begin_cleaned
begin_cleaned-Granted now later draw peer offer file nonce s s' c e =
    elim (Option-cases (lookup nonce s.begin_nonces)) [
      | inr (r, known) ↦
          let (same, fits, t, found, issued) =
            repeat_begin_granted later peer offer file r s s' c (rw (known, begin_cleaned) at e) in
          record {
            r = r;
            t = t;
            remembered = ground arith;
            matches = fits;
            found = ground arith;
            issued = issued;
          }
      | inl unused ↦
          let (id, capability, server_nonce, (registered, issued)) =
            fresh_begin_granted now later draw peer offer file nonce s s' c
              (rw (unused, begin_cleaned) at e) in
          subst₂ (λ z k. Granted peer offer file nonce later z k) (sym registered) (sym issued)
            (register-Granted later nonce
              (new_session peer offer file id capability server_nonce (now + s.transfer_ttl)) s)
    ]

-- BeginTransfer sent twice: the same peer repeats the request with the nonce after it was granted,
-- at a moment when it is still trusted and neither the offer nor the session has expired. It gets
-- the credentials of the same session again, made out for the time that is left, and no session
-- is added: only expired entries leave the maps.
pub begin_transfer_twice :
    (m m' : Moment) (later later' : ℕ) (draw draw' : Draw) (peer offer file nonce : List ℕ)
    (s s' : ServerState) (c : TransferCredentials)
    → IsServer s
    → IsFresh draw s
    → Admitted m peer offer file s
    → begin_transfer m later draw peer offer file nonce s ≡ (s', ok c)
    → Admitted m' peer offer file s'
    → ((r : BeginTransferRecord) → lookup nonce s'.begin_nonces ≡ some r → m'.now < r.expires_at)
    → (t : TransferSession) × (lookup c.transfer_id s'.transfers ≡ some t)
      × (c ≡ credentials later t)
      × (begin_transfer m' later' draw' peer offer file nonce s'
          ≡ (cleanup_expired_sessions m'.now s', ok (credentials later' t)))
begin_transfer_twice m m' later later' draw draw' peer offer file nonce s s' c w fresh a e a'
      alive =
    let w' : IsServer s' =
      subst (λ (p : ServerState × WireResult TransferCredentials). IsServer p.0) e
        (begin_transfer-IsServer m later draw peer offer file nonce s w fresh) in
    let g : Granted peer offer file nonce later s' c =
      begin_cleaned-Granted m.now later draw peer offer file nonce
        (cleanup_expired_sessions m.now s) s' c
        (sym (Admitted-begin m later draw peer offer file nonce s a) ∙ e) in
    let (t, found, again) =
      begin_known_nonce m' later' draw' peer offer file nonce s' g.r w' a' g.remembered
        (alive g.r g.remembered) in
    let same : t ≡ g.t = some-injective t g.t (sym found ∙ g.found) in
    let own = Entries-lookup OwnKey g.r.transfer_id s'.transfers found w'.sessions in
    let issued : c ≡ credentials later t = g.issued ∙ ap (credentials later) (sym same) in
    let id : c.transfer_id ≡ g.r.transfer_id =
      ap (λ (k : TransferCredentials). k.transfer_id) issued ∙ (unfold credentials in own.0) in
    (t, ap (λ k. lookup k s'.transfers) id ∙ found, issued, again ∙ rw g.matches)
