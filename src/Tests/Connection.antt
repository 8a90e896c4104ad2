-- ===== src/Tests/Connection.antt =====
-- Requests, connections and recoveries at concrete inputs.
use mathlib.Core.Option.{some-injective}
use clip_ferry.Common.{◌^◌, ◌≡◌, ◌≢◌, inl, refl, false, none, some, [], ◌∷◌, arith, bytes, bytes_eq}
use clip_ferry.Common.Map.{lookup}
use clip_ferry.Common.Result.{err, connection_reset}
use clip_ferry.Wire.Code.{pause}
use clip_ferry.Server.Peers.Invariant.{IsServer}
use clip_ferry.Server.Dispatch.{Round, dispatch_request}
use clip_ferry.Server.Dispatch.Invariant.{FairRound, dispatch_request-IsServer}
use clip_ferry.Server.Connection.{handle_requests}
use clip_ferry.Server.Connection.Rounds.{Limited, handle_requests_end}
use clip_ferry.Offer.Manifest.{Utf8}
use clip_ferry.Client.Waits.{SecureRecoveryPolicy, with_recovery_policy}
use clip_ferry.Client.Recovery.{CommandResult, SecureRecoveryMetrics, Attempt, command_recovering}
use clip_ferry.Client.Recovery.Ends.{Awake, total_passed, command_recovering_ends}
use clip_ferry.Tests.Server.{peer_1, begun, begun-IsServer, trusted_at}
use clip_ferry.Tests.Read.{quiet}

abbrev pub ascii : Utf8
ascii = record { as_bytes = λ s. s; from_utf8 = λ b. some b }

abbrev pub round_1 : Round
round_1 = record {
  others = λ s. s;
  moment = trusted_at 20;
  later = 21;
  draw = record {
    transfer_id = some (9 ∷ []);
    capability = some (5 ∷ []);
    server_nonce = some (6 ∷ []);
  };
  turns = quiet ∷ [];
  serve = trusted_at 22;
  finish = quiet;
}

round_1-FairRound : FairRound round_1 begun
unfolding lookup bytes_eq
round_1-FairRound = record {
  waits = (λ s w. w, tt);
  reads = λ s w. w;
  fresh = λ id e. let same : (9 ∷ []) ≡ id = some-injective _ _ e in rw (← same) refl;
}

dispatch_request-IsServer_example :
    IsServer (dispatch_request ascii round_1 peer_1 pause (1 ∷ []) begun).0
dispatch_request-IsServer_example =
    dispatch_request-IsServer ascii round_1 peer_1 pause (1 ∷ []) begun begun-IsServer
      round_1-FairRound

round_1-Limited : Limited round_1
round_1-Limited = record { before = []; last = quiet; after = []; split = refl; times_out = refl }

-- Three bytes that are no frame.
handle_requests_end_example :
    (handle_requests ascii peer_1
      (round_1 ∷ round_1 ∷ round_1 ∷ round_1 ∷ [])
      (1 ∷ 2 ∷ 3 ∷ [])
      []
      begun).ended
    ≢ none
handle_requests_end_example =
    handle_requests_end ascii peer_1 (round_1 ∷ round_1 ∷ round_1 ∷ round_1 ∷ []) (1 ∷ 2 ∷ 3 ∷ [])
      [] begun (round_1-Limited, (round_1-Limited, (round_1-Limited, (round_1-Limited, tt))))
      (omega arith)

-- Fifteen milliseconds of recovery.
abbrev pub policy_15 : SecureRecoveryPolicy
policy_15 = record {
  max_elapsed = 15000000;
  connect_attempt_timeout = 0;
  initial_backoff = 0;
  max_backoff = 0;
}

abbrev pub attempt_1 : Attempt
attempt_1 = record {
  polls = (record { suspended = false; interrupt = false; took = 0 }) ∷ [];
  interrupt = false;
  took = 1000;
  ticks = (record { passed = 20000000; interrupt = false }) ∷ [];
  lag = 5;
}

abbrev pub no_failures : SecureRecoveryMetrics
no_failures = record {
  transient_failures = 0;
  reconnect_attempts = 0;
  recovered_commands = 0;
  exhausted_commands = 0;
  active_recoveries = 0;
}

-- A network on which nothing works.
abbrev dead_network : Unit {0} → Unit {0} × CommandResult
dead_network w = (w, err (record { kind = connection_reset; raw_os_error = some 10054 }))

attempt_1-Awake : Awake (with_recovery_policy policy_15) attempt_1
unfolding with_recovery_policy total_passed
attempt_1-Awake = record { opens = inl refl; sleeps = omega arith }

command_recovering_ends_example :
    (command_recovering
      (with_recovery_policy policy_15)
      (2 ^ 64)
      dead_network
      (attempt_1 ∷ attempt_1 ∷ [])
      0
      no_failures
      tt).result
    ≢ none
command_recovering_ends_example =
    command_recovering_ends policy_15 (2 ^ 64) dead_network (attempt_1 ∷ attempt_1 ∷ []) 0
      no_failures tt (attempt_1-Awake, (attempt_1-Awake, tt)) (omega arith)
