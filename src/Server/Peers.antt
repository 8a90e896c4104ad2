-- ===== src/Server/Peers.antt =====
-- Who may use the server: `peer_is_allowed`, `ensure_peer_allowed`, `cancel_peer_transfers`,
-- `cleanup_expired_sessions` and `authenticated_session` of src/clipboard/secure_transfer.rs.
pub mod Auth
pub mod Invariant
use clip_ferry.Common.{
  ℕ, ◌+◌, Bool, Option, none, some, List, [], ◌∷◌, ltb, leb, if◌then◌else◌, ◌||◌, ◌&&◌, not, bytes,
  bytes_eq,
}
use clip_ferry.Common.Map.{lookup, retain}
use clip_ferry.Common.Result.{ok, err}
use clip_ferry.Wire.Code.{RemoteTransferState, denied, expired}
use clip_ferry.Wire.Message.{TransferCredentials}
use clip_ferry.Server.State.{
  ServerState, TransferSession, Moment, M, ◌>>=◌, ◌>>◌, pure, fail, get_state, update, count_denied,
  count_cancelled, is_active,
}

unfoldable pub peer_is_allowed : ServerState → Moment → List ℕ → Bool
peer_is_allowed s m peer =
    bytes_eq peer s.authorized_peer && (not s.has_trust_store || m.load_peer_ok peer)

-- What `cancel_peer_transfers` does to one session.
unfoldable pub cancel_for : List ℕ → TransferSession → TransferSession
cancel_for peer t =
    if bytes_eq t.authorized_peer peer && is_active t.inner.state
    then record t { inner = record (t.inner) { state = RemoteTransferState.cancelled } }
    else t

unfoldable pub cancel_all_for :
    List ℕ → List (List ℕ × TransferSession) → List (List ℕ × TransferSession)
unfolding cancel_for
cancel_all_for peer [] = []
cancel_all_for peer ((k, t) ∷ ts) = (k, cancel_for peer t) ∷ cancel_all_for peer ts

-- How many sessions that cancels.
unfoldable pub active_for : List ℕ → List (List ℕ × TransferSession) → ℕ
active_for peer [] = 0
active_for peer ((k, t) ∷ ts) =
    (if bytes_eq t.authorized_peer peer && is_active t.inner.state then 1 else 0)
    + active_for peer ts

unfoldable pub cancel_peer_transfers : List ℕ → ServerState → ServerState
cancel_peer_transfers peer s =
    count_cancelled (active_for peer s.transfers)
      (record s { transfers = cancel_all_for peer s.transfers })

unfoldable pub ensure_peer_allowed : Moment → List ℕ → M (Unit {0})
ensure_peer_allowed m peer s =
    if peer_is_allowed s m peer
    then (s, ok tt)
    else (cancel_peer_transfers peer (count_denied s), err denied)

-- `retain(|_, transfer| transfer.expires_at > now)` on both maps.
unfoldable pub cleanup_expired_sessions : ℕ → ServerState → ServerState
cleanup_expired_sessions now s = record s {
  transfers = retain (λ t. ltb now t.expires_at) s.transfers;
  begin_nonces = retain (λ r. ltb now r.expires_at) s.begin_nonces;
}

-- Do the credentials and the peer fit the session?
unfoldable pub credentials_match : List ℕ → TransferCredentials → TransferSession → Bool
credentials_match peer c t =
    bytes_eq t.authorized_peer peer
    && (bytes_eq t.offer_id c.offer_id
        && (bytes_eq t.file_id c.file_id
            && (bytes_eq t.capability c.capability && bytes_eq t.server_nonce c.server_nonce)))

-- The checks of `authenticated_session` behind the trust check, on the session that was found.
unfoldable pub check_session :
    Moment → List ℕ → TransferCredentials → Option TransferSession → M TransferSession
check_session m peer c none = do update count_denied; fail denied
check_session m peer c (some t) =
    if leb t.expires_at m.now
    then fail expired
    else if credentials_match peer c t
    then pure t
    else (do update count_denied; fail denied)

unfoldable pub authenticated_session : Moment → List ℕ → TransferCredentials → M TransferSession
unfolding ensure_peer_allowed check_session
authenticated_session m peer c = do
  ensure_peer_allowed m peer
  s ← get_state
  check_session m peer c (lookup c.transfer_id s.transfers)
