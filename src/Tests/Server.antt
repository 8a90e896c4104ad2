-- ===== src/Tests/Server.antt =====
-- The offering side of src/clipboard/secure_transfer.rs at concrete inputs.
use clip_ferry.Common.{
  ◌↔◌, ℕ, ◌≡◌, ◌≢◌, ◌<◌, ◌≤◌, ◌^◌, refl, true, false, some, none, List, [], ◌∷◌, take, drop, arith,
  bytes, bytes_eq,
}
use mathlib.Core.Option.{some-ne-none}
use clip_ferry.Common.Map.{lookup, insert, retain, modify}
use clip_ferry.Common.Result.{ok, err}
use clip_ferry.Wire.Code.{
  WireResult, ResponseStatus, running, paused, pause, cancel, opcode_as_u16, denied, replay,
  expired,
}
use clip_ferry.Wire.Message.{TransferCredentials, TransferStatus}
use clip_ferry.Offer.Tree.{VirtualFileDescriptor}
use clip_ferry.Offer.Manifest.{OfferManifest, manifest_entry}
use clip_ferry.Server.Coverage.{
  no_coverage, note, sort_by_start, insert_by_start, merge_loop, store_merged,
}
use clip_ferry.Server.Coverage.Count.{count_below}
use clip_ferry.Server.Coverage.History.{
  IsCoverage, note-IsCoverage, no_coverage-IsCoverage, note_all, was_read, unique_bytes-note_all,
}
use clip_ferry.Server.State.{
  ServerState, TransferSession, BeginTransferRecord, SecureMetrics, Moment, credentials,
  count_replayed,
}
use clip_ferry.Server.Peers.{
  peer_is_allowed, ensure_peer_allowed, cleanup_expired_sessions, authenticated_session,
  check_session, credentials_match,
}
use clip_ferry.Server.Peers.Auth.{
  Authenticated, authenticated_session_iff, NoneActive, ensure_peer_allowed_revoked,
}
use clip_ferry.Server.Peers.Invariant.{IsServer}
use clip_ferry.Server.Begin.{
  Draw, new_session, new_record, begin_transfer, begin_cleaned, fresh_begin, register,
  active_transfers,
}
use clip_ferry.Server.Begin.Invariant.{IsFresh, begin_transfer-IsServer}
use clip_ferry.Server.Begin.Retry.{Admitted, begin_transfer_twice}
use clip_ferry.Server.Control.{
  control, control_session, is_last_opcode, is_control, next_state, cancels,
}
use clip_ferry.Server.Control.Machine.{control-IsServer}
use clip_ferry.Server.Control.Replay.{control_again}

abbrev pub peer_1 : List ℕ
peer_1 = 1 ∷ []

abbrev pub offer_1 : List ℕ
offer_1 = 2 ∷ []

abbrev pub file_1 : List ℕ
file_1 = 3 ∷ []

abbrev pub id_1 : List ℕ
id_1 = 4 ∷ []

abbrev pub nonce_1 : List ℕ
nonce_1 = 7 ∷ []

abbrev no_metrics : SecureMetrics
no_metrics = record {
  denied_requests = 0;
  replayed_requests = 0;
  begun_transfers = 0;
  read_requests = 0;
  served_bytes = 0;
  cancelled_transfers = 0;
  active_reads = 0;
  max_concurrent_reads = 0;
}

abbrev five_bytes : List ℕ
five_bytes = 10 ∷ 11 ∷ 12 ∷ 13 ∷ 14 ∷ []

abbrev pub descriptor_1 : VirtualFileDescriptor
descriptor_1 = record {
  file_name = b'a' ∷ [];
  size = 5;
  attributes = 128;
  creation_time = none;
  last_access_time = none;
  last_write_time = some (record { low = 7; high = 1 });
}

abbrev pub manifest_1 : OfferManifest
manifest_1 = record {
  offer_id = offer_1;
  entries = (record { file_id = file_1; descriptor = descriptor_1 }) ∷ [];
  ttl = 990;
}

-- Offers one file of five bytes until 1000.
abbrev pub idle : ServerState
idle = record {
  offered = record {
    manifest = manifest_1;
    sources = (file_1, λ offset n. some (take n (drop offset five_bytes))) ∷ [];
    expires_at = 1000;
  };
  authorized_peer = peer_1;
  has_trust_store = true;
  transfer_ttl = 100;
  request_timeout = 30;
  instant_limit = 100000;
  transfers = [];
  begin_nonces = [];
  metrics = no_metrics;
  injected_response_drops = 0;
}

-- The peer is trusted.
abbrev pub trusted_at : ℕ → Moment
trusted_at now = record { now = now; load_peer_ok = λ _. true }

-- No peer is trusted any more.
abbrev pub revoked_at : ℕ → Moment
revoked_at now = record { now = now; load_peer_ok = λ _. false }

abbrev draw_1 : Draw
draw_1 = record {
  transfer_id = some id_1;
  capability = some (5 ∷ []);
  server_nonce = some (6 ∷ []);
}

abbrev pub session_1 : TransferSession
session_1 = new_session peer_1 offer_1 file_1 id_1 (5 ∷ []) (6 ∷ []) 110

abbrev pub begun : ServerState
begun = record idle {
  transfers = (id_1, session_1) ∷ [];
  begin_nonces = (nonce_1, new_record peer_1 offer_1 file_1 id_1 110) ∷ [];
  metrics = record no_metrics { begun_transfers = 1 };
}

abbrev pub credentials_of_1 : ℕ → TransferCredentials
credentials_of_1 millis = record {
  offer_id = offer_1;
  file_id = file_1;
  transfer_id = id_1;
  capability = 5 ∷ [];
  server_nonce = 6 ∷ [];
  expires_at_millis = millis;
}

begin_first :
    begin_transfer (trusted_at 10) 11 draw_1 peer_1 offer_1 file_1 nonce_1 idle
    ≡ (begun, ok (credentials_of_1 0))
unfolding begin_transfer ensure_peer_allowed peer_is_allowed cleanup_expired_sessions retain
    begin_cleaned lookup insert fresh_begin manifest_entry register active_transfers credentials
    bytes_eq
begin_first = refl

idle-IsServer : IsServer idle
idle-IsServer = record {
  sessions_distinct = tt;
  nonces_distinct = tt;
  few_sessions = omega arith;
  few_nonces = omega arith;
  sessions = tt;
  records = tt;
}

idle-IsFresh : IsFresh draw_1 idle
unfolding lookup bytes_eq
idle-IsFresh id e = refl

idle-Admitted : Admitted (trusted_at 10) peer_1 offer_1 file_1 idle
unfolding peer_is_allowed lookup manifest_entry bytes_eq
idle-Admitted = record {
  allowed = refl;
  same_offer = refl;
  live = omega arith;
  has_source = λ e. some-ne-none _ e;
}

begun-Admitted : Admitted (trusted_at 20) peer_1 offer_1 file_1 begun
unfolding peer_is_allowed lookup manifest_entry bytes_eq
begun-Admitted = record {
  allowed = refl;
  same_offer = refl;
  live = omega arith;
  has_source = λ e. some-ne-none _ e;
}

begin_transfer-IsServer_example :
    IsServer (begin_transfer (trusted_at 10) 11 draw_1 peer_1 offer_1 file_1 nonce_1 idle).0
begin_transfer-IsServer_example =
    begin_transfer-IsServer (trusted_at 10) 11 draw_1 peer_1 offer_1 file_1 nonce_1 idle
      idle-IsServer idle-IsFresh

pub begun-IsServer : IsServer begun
unfolding lookup bytes_eq
begun-IsServer = record {
  sessions_distinct = (refl, tt);
  nonces_distinct = (refl, tt);
  few_sessions = omega arith;
  few_nonces = omega arith;
  sessions = ((refl, no_coverage-IsCoverage), tt);
  records = ((session_1, refl, refl, refl, refl, refl), tt);
}

record_alive :
    (r : BeginTransferRecord) → lookup nonce_1 begun.begin_nonces ≡ some r → 20 < r.expires_at
unfolding lookup bytes_eq
record_alive r e = ground arith

begin_transfer_twice_example :
    (t : TransferSession) × (lookup id_1 begun.transfers ≡ some t)
    × (credentials_of_1 0 ≡ credentials 11 t)
    × (begin_transfer (trusted_at 20) 21 draw_1 peer_1 offer_1 file_1 nonce_1 begun
        ≡ (cleanup_expired_sessions 20 begun, ok (credentials 21 t)))
begin_transfer_twice_example =
    begin_transfer_twice (trusted_at 10) (trusted_at 20) 11 21 draw_1 draw_1 peer_1 offer_1 file_1
      nonce_1 idle begun (credentials_of_1 0) idle-IsServer idle-IsFresh idle-Admitted begin_first
      begun-Admitted record_alive

authenticated_1 :
    authenticated_session (trusted_at 20) peer_1 (credentials_of_1 0) begun ≡ (begun, ok session_1)
unfolding authenticated_session ensure_peer_allowed peer_is_allowed lookup check_session
    credentials_match bytes_eq
authenticated_1 = refl

authenticated_session_iff_example :
    (authenticated_session (trusted_at 20) peer_1 (credentials_of_1 0) begun
      ≡ (begun, ok session_1))
    ↔ ((begun ≡ begun) × Authenticated (trusted_at 20) peer_1 (credentials_of_1 0) begun session_1)
authenticated_session_iff_example =
    authenticated_session_iff (trusted_at 20) peer_1 (credentials_of_1 0) begun begun session_1

revoked_1 : peer_is_allowed begun (revoked_at 20) peer_1 ≡ false
unfolding peer_is_allowed bytes_eq
revoked_1 = refl

ensure_peer_allowed_revoked_example :
    ((ensure_peer_allowed (revoked_at 20) peer_1 begun).1 ≡ err denied)
    × NoneActive peer_1 (ensure_peer_allowed (revoked_at 20) peer_1 begun).0.transfers
ensure_peer_allowed_revoked_example =
    ensure_peer_allowed_revoked (revoked_at 20) peer_1 begun revoked_1

abbrev session_paused : TransferSession
session_paused = record session_1 {
  inner = record {
    state = paused;
    last_control_sequence = 1;
    last_control_opcode = some pause;
    coverage = no_coverage;
  };
}

abbrev begun_paused : ServerState
begun_paused = record begun { transfers = (id_1, session_paused) ∷ [] }

pause_1 :
    control (trusted_at 20) peer_1 (credentials_of_1 0) 1 pause begun
    ≡ (begun_paused, ok (record { state = paused; unique_bytes = 0 }))
unfolding control control_session authenticated_session ensure_peer_allowed peer_is_allowed lookup
    check_session credentials_match is_last_opcode is_control next_state cancels modify bytes_eq
pause_1 = refl

session_alive : (t : TransferSession) → lookup id_1 begun.transfers ≡ some t → 30 < t.expires_at
unfolding lookup bytes_eq
session_alive t e = ground arith

paused_allowed : peer_is_allowed begun_paused (trusted_at 30) peer_1 ≡ true
unfolding peer_is_allowed bytes_eq
paused_allowed = refl

control_again_example :
    (control (trusted_at 30) peer_1 (credentials_of_1 0) 1 pause begun_paused
      ≡ (begun_paused, ok (record { state = paused; unique_bytes = 0 })))
    × ((number : ℕ) (p : clip_ferry.Wire.Code.Opcode)
        → number ≤ 1
        → (number ≡ 1 → p ≢ pause)
        → control (trusted_at 30) peer_1 (credentials_of_1 0) number p begun_paused
          ≡ (count_replayed begun_paused, err replay))
control_again_example =
    control_again (trusted_at 20) (trusted_at 30) peer_1 (credentials_of_1 0) 1 pause begun
      begun_paused (record { state = paused; unique_bytes = 0 }) begun-IsServer pause_1
      paused_allowed session_alive

abbrev cancel_begun : ServerState × WireResult TransferStatus
cancel_begun = control (trusted_at 20) peer_1 (credentials_of_1 0) 1 cancel begun

control-IsServer_example :
    IsServer (control (trusted_at 20) peer_1 (credentials_of_1 0) 1 cancel begun).0
control-IsServer_example =
    control-IsServer (trusted_at 20) peer_1 (credentials_of_1 0) 1 cancel begun begun-IsServer

note-IsCoverage_example : IsCoverage (note no_coverage 5 10)
note-IsCoverage_example = note-IsCoverage no_coverage 5 10 no_coverage-IsCoverage

not_saturated : (note no_coverage 5 10).saturated ≡ false
unfolding note sort_by_start insert_by_start merge_loop store_merged
not_saturated = refl

abbrev two_reads : List (ℕ × ℕ)
two_reads = (8, 4) ∷ (5, 5) ∷ []

two_reads_tracked : (note_all no_coverage two_reads).saturated ≡ false
unfolding note_all note sort_by_start insert_by_start merge_loop store_merged
two_reads_tracked = refl

unique_bytes-note_all_example :
    (note_all no_coverage two_reads).unique_bytes ≡ count_below (2 ^ 64) (was_read two_reads)
unique_bytes-note_all_example = unique_bytes-note_all two_reads two_reads_tracked
