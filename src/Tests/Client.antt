-- ===== src/Tests/Client.antt =====
-- The receiving side at concrete inputs: a lossy network, a remote source and its group.
use clip_ferry.Common.{
  ℕ, ◌+◌, ◌-◌, ◌<◌, ◌≤◌, ◌^◌, ◌≡◌, ◌⊎◌, refl, min, true, false, Bool, none, some, List, [], ◌∷◌,
  ◌++◌, length, take, drop, arith, bytes, bytes_eq, All,
}
use clip_ferry.Common.Map.{lookup, modify}
use clip_ferry.Common.Result.{ok, err}
use clip_ferry.Wire.Code.{encode_state, RemoteTransferState, pause, running, paused}
use clip_ferry.Wire.Message.{
  TransferCredentials, TransferStatus, control_request, decode_transfer_status,
  max_secure_range_bytes,
}
use clip_ferry.Clipboard.Source.{HresultError}
use clip_ferry.Server.State.{ServerState, TransferSession, count_denied}
use clip_ferry.Server.Coverage.History.{no_coverage-IsCoverage}
use clip_ferry.Server.Peers.{
  peer_is_allowed, ensure_peer_allowed, authenticated_session, check_session, credentials_match,
}
use clip_ferry.Server.Peers.Invariant.{IsServer}
use clip_ferry.Server.Begin.{new_session, max_begin_nonces}
use clip_ferry.Server.Control.{
  control, control_session, is_last_opcode, is_control, next_state, cancels,
}
use clip_ferry.Server.Answers.{encode_control_response}
use clip_ferry.Server.Answers.EndToEnd.{on_server}
use clip_ferry.Client.Recovery.{Recovered, command_recovering}
use clip_ferry.Client.Recovery.Network.{Delivery, Good, RunOnce, HasRun, over_network}
use clip_ferry.Client.Recovery.Resend.{control_at_most_once}
use clip_ferry.Common.Bytes.{to_be_bytes, from_be_bytes, field_at}
use clip_ferry.Wire.Frame.{array_at}
use clip_ferry.Wire.Message.{
  encode_transfer_status, encode_credentials, decode_credentials, parse_control_request,
}
use clip_ferry.Server.Answers.{response_payload}
use clip_ferry.Server.Dispatch.{dispatch_request, dispatch, reply}
use clip_ferry.Server.Connection.{handle_requests}
use clip_ferry.Client.Connection.{exchange}
use clip_ferry.Client.Connection.Served.{Fits, Answered, exchange_served, sent_bytes, frame_of}
use clip_ferry.Client.Group.{Group, SecureRemoteSource, failed}
use clip_ferry.Client.Source.{
  read_at, read_started, begin_read, read_transfer, give_bytes, check_end, send_completion,
  completed_or_not, is_pause, read_range_loop, credentials, credentials_or_begin, after_begin,
  wait_for_group, has_started,
}
use clip_ferry.Client.Source.Reads.{read_at_ok}
use clip_ferry.Client.Source.Steps.{Completed, slept}
use clip_ferry.Client.Registry.{
  Signals, TransferGroupStatus, remember_source, started_sources, filter_sources, cancel_all,
}
use clip_ferry.Client.Registry.Cancel.{KeepsCancelled, cancel_all_stops, remember_source_bounded}
use clip_ferry.Server.Read.{is_paused}
use clip_ferry.Tests.Wire.{credentials_1, credentials_1-IsCredentials}
use clip_ferry.Tests.Server.{peer_1, begun, trusted_at}
use clip_ferry.Tests.Connection.{ascii, round_1, policy_15, attempt_1, no_failures}

-- A server with one running transfer, that of the credentials.
abbrev serving : ServerState
serving = record begun {
  transfers =
      (
        credentials_1.transfer_id,
        new_session peer_1 credentials_1.offer_id credentials_1.file_id credentials_1.transfer_id
            credentials_1.capability credentials_1.server_nonce 110,
      )
      ∷ [];
  begin_nonces = [];
}

serving-IsServer : IsServer serving
unfolding lookup bytes_eq
serving-IsServer = record {
  sessions_distinct = (refl, tt);
  nonces_distinct = tt;
  few_sessions = omega arith;
  few_nonces = omega arith;
  sessions = ((refl, no_coverage-IsCoverage), tt);
  records = tt;
}

abbrev serving_paused : ServerState
serving_paused = (control (trusted_at 20) peer_1 (on_server credentials_1) 1 pause serving).0

abbrev paused_status : TransferStatus
paused_status = record { state = paused; unique_bytes = 0 }

serving_pause :
    control (trusted_at 20) peer_1 (on_server credentials_1) 1 pause serving
    ≡ (serving_paused, ok paused_status)
unfolding control control_session authenticated_session ensure_peer_allowed peer_is_allowed lookup
    check_session credentials_match is_last_opcode is_control next_state cancels modify bytes_eq
serving_pause = refl

abbrev serving_session : TransferSession
serving_session =
    new_session peer_1 credentials_1.offer_id credentials_1.file_id credentials_1.transfer_id
      credentials_1.capability credentials_1.server_nonce 110

-- The first response is lost, and before the second request another connection is denied something.
abbrev deliveries : List Delivery
deliveries =
    (record { others = λ t. t; moment = trusted_at 20; delivered = true; returned = false })
    ∷ (record { others = count_denied; moment = trusted_at 40; delivered = true; returned = true })
    ∷ []

deliveries-Good : All (Good peer_1 credentials_1 serving_session) deliveries
deliveries-Good = (
  record { trusted = refl; alive = ground arith; same_session = λ t. refl; same_peer = λ t. refl },
  (
    record {
      trusted = refl;
      alive = ground arith;
      same_session = λ t. refl;
      same_peer = λ t. refl;
    },
    tt,
  ),
)

serving_found : lookup credentials_1.transfer_id serving.transfers ≡ some serving_session
unfolding lookup bytes_eq
serving_found = refl

abbrev lossy_run : Recovered (ServerState × List Delivery)
lossy_run =
    command_recovering policy_15 (2 ^ 64)
      (over_network (λ m. encode_control_response m peer_1 pause (control_request credentials_1 1)))
      (attempt_1 ∷ attempt_1 ∷ []) 0 no_failures (serving, deliveries)

control_at_most_once_example :
    RunOnce credentials_1 1 pause paused_status serving_session lossy_run.world.0
    × ((response : List ℕ)
        → lossy_run.result ≡ some (ok response)
        → HasRun credentials_1 1 pause paused_status serving_session lossy_run.world.0
          × (decode_transfer_status response ≡ ok paused_status))
control_at_most_once_example =
    control_at_most_once peer_1 credentials_1 1 pause (trusted_at 20) serving serving_paused
      paused_status serving_session policy_15 (2 ^ 64) (attempt_1 ∷ attempt_1 ∷ []) 0 no_failures
      deliveries serving-IsServer credentials_1-IsCredentials (omega arith) (omega arith)
      serving_found serving_pause deliveries-Good

-- The signals of a group: paused, and cancelled.
abbrev Flags : Type 0
Flags = Bool × Bool

abbrev running_status : TransferStatus
running_status = record { state = running; unique_bytes = 0 }

abbrev two_bytes : List ℕ
two_bytes = 13 ∷ 14 ∷ []

-- A client whose transfers give the bytes 10 to 14.
abbrev local_group : Group Flags
local_group = record {
  group_paused = λ w. w.0;
  group_cancelled = λ w. w.1;
  sleep = λ w. w;
  begin_transfer = λ w. (w, ok credentials_1);
  read_range =
      λ c offset n w. (w, ok (running_status, take n (drop offset (10 ∷ 11 ∷ 12 ∷ two_bytes))));
  control = λ b c n o w. (w, ok running_status);
  control_once = λ c n o w. (w, ok running_status);
  status = λ c w. (w, ok running_status);
}

abbrev local_signals : Signals Flags
local_signals = record { set_paused = λ b w. (b, w.1); set_cancelled = λ b w. (w.0, b) }

abbrev new_source : SecureRemoteSource
new_source = record {
  size = 5;
  transfer = none;
  next_control_sequence = 1;
  completion_sent = false;
  read_calls = 0;
  bytes_read = 0;
}

abbrev begun_source : SecureRemoteSource
begun_source = record new_source { transfer = some credentials_1 }

abbrev read_source : SecureRemoteSource
read_source = record begun_source { read_calls = 1; bytes_read = 2 }

read_two :
    read_at local_group 3 3 8 new_source (false, false)
    ≡ (read_source, (false, false), ok two_bytes)
unfolding read_at read_started begin_read read_transfer give_bytes check_end send_completion
    completed_or_not is_pause read_range_loop credentials credentials_or_begin after_begin
    wait_for_group is_paused
read_two = refl

read_at_ok_example :
    ((n : ℕ) × (n ≤ 3)
      × (local_group.group_cancelled (slept local_group n (false, false)) ≡ false)
      × (local_group.group_paused (slept local_group n (false, false)) ≡ false))
    × ((c : TransferCredentials) × (asked : Flags) × (answered : Flags) × (status : TransferStatus)
        × (read_source.transfer ≡ some c)
        × (local_group.read_range c 3 (min 8 max_secure_range_bytes) asked
            ≡ (answered, ok (status, two_bytes)))
        × (is_pause status two_bytes ≡ false)
        × (two_bytes ≡ []
            → (new_source.size ≤ 3)
              × (read_source.completion_sent ≡ true)
              × ((new_source.completion_sent ≡ true) ⊎ Completed local_group c)))
    × (read_source.bytes_read ≡ new_source.bytes_read + length two_bytes)
read_at_ok_example =
    read_at_ok local_group 3 3 8 new_source read_source (false, false) (false, false) two_bytes
      (omega arith) read_two

local-KeepsCancelled : KeepsCancelled local_group local_signals
local-KeepsCancelled = record {
  is_set = λ w. refl;
  kept_by_pause = λ b w h. h;
  kept_by_calls = λ c n w h. h;
}

one_started : started_sources (new_source ∷ begun_source ∷ []) ≡ ok (begun_source ∷ [])
unfolding started_sources filter_sources has_started
one_started = refl

cancel_all_stops_example :
    ((status : TransferGroupStatus) × ((cancel_all local_group local_signals
          (new_source ∷ begun_source ∷ [])
          (true, false)).2
        ≡ ok status)
      × (status.state ≡ RemoteTransferState.cancelled))
    × ((rounds offset buffer : ℕ) (r : SecureRemoteSource)
        → 0 < buffer
        → read_at local_group rounds offset buffer r
            (cancel_all local_group local_signals (new_source ∷ begun_source ∷ []) (true, false)).1
          ≡ (
            r,
            (cancel_all local_group local_signals (new_source ∷ begun_source ∷ []) (true, false)).1,
            err (failed HresultError.error_cancelled),
          ))
cancel_all_stops_example =
    cancel_all_stops local_group local_signals (new_source ∷ begun_source ∷ []) (begun_source ∷ [])
      (true, false) local-KeepsCancelled one_started

remember_source_bounded_example :
    (length (remember_source new_source (begun_source ∷ [])) ≤ max_begin_nonces)
    × ((dropped kept : List SecureRemoteSource) × (begun_source ∷ [] ≡ dropped ++ kept)
        × (remember_source new_source (begun_source ∷ []) ≡ kept ++ (new_source ∷ []))
        × (length dropped ≡ length (begun_source ∷ []) + 1 - max_begin_nonces))
remember_source_bounded_example =
    remember_source_bounded new_source (begun_source ∷ []) (omega arith)

abbrev pause_request : List ℕ
pause_request = control_request credentials_1 1

abbrev pause_reply : List ℕ
pause_reply = encode_transfer_status paused_status

pause_request-Fits : Fits 7 pause_request
unfolding control_request encode_credentials to_be_bytes
pause_request-Fits = record { id_64 = omega arith; small = omega arith; bytes_u8 = omega arith }

pause_reply-Fits : Fits 7 pause_reply
unfolding encode_transfer_status to_be_bytes encode_state
pause_reply-Fits = record { id_64 = omega arith; small = omega arith; bytes_u8 = omega arith }

pause_answered :
    Answered ascii round_1 peer_1 pause 7 pause_request pause_reply serving serving_paused
unfolding peer_is_allowed bytes_eq dispatch_request dispatch reply encode_control_response
    response_payload control control_session authenticated_session ensure_peer_allowed lookup
    check_session credentials_match is_last_opcode is_control next_state cancels modify
    control_request parse_control_request encode_credentials decode_credentials to_be_bytes
    from_be_bytes encode_transfer_status field_at array_at
pause_answered = record { allowed = refl; dispatched = refl; not_dropped = refl }

exchange_served_example :
    (exchange 7 pause pause_request []
        (λ request. (handle_requests ascii peer_1 (round_1 ∷ []) request [] serving).sent)
      ≡ ok (pause_reply, []))
    × ((handle_requests ascii peer_1
          (round_1 ∷ [])
          (sent_bytes (frame_of pause 7 pause_request))
          []
          serving).state
        ≡ serving_paused)
exchange_served_example =
    exchange_served ascii round_1 peer_1 pause 7 pause_request pause_reply serving serving_paused
      pause_request-Fits pause_reply-Fits pause_answered
