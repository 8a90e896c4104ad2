-- ===== src/Tests/Answers.antt =====
-- A control command from end to end (src/clipboard/secure_transfer.rs) at concrete inputs.
use clip_ferry.Common.{◌≡◌, ◌≢◌, ◌<◌, ◌^◌, arith}
use clip_ferry.Common.Result.{ok, err}
use clip_ferry.Wire.Code.{ResponseStatus, pause, status_error}
use clip_ferry.Wire.Message.{TransferStatus, control_request, decode_transfer_status}
use clip_ferry.Server.Control.{control}
use clip_ferry.Server.Answers.{response_payload, encode_control_response}
use clip_ferry.Server.Answers.EndToEnd.{on_server, control_end_to_end}
use clip_ferry.Tests.Wire.{credentials_1, credentials_1-IsCredentials}
use clip_ferry.Tests.Server.{peer_1, begun, trusted_at}

control_end_to_end_example :
    ((encode_control_response
        (trusted_at 20)
        peer_1
        pause
        (control_request credentials_1 1)
        begun).0
      ≡ (control (trusted_at 20) peer_1 (on_server credentials_1) 1 pause begun).0)
    × ((st : TransferStatus)
        → (control (trusted_at 20) peer_1 (on_server credentials_1) 1 pause begun).1 ≡ ok st
        → st.unique_bytes < 256 ^ 8
        → decode_transfer_status (
            response_payload
              (encode_control_response
                (trusted_at 20)
                peer_1
                pause
                (control_request credentials_1 1)
                begun).1)
          ≡ ok st)
    × ((e : ResponseStatus)
        → (control (trusted_at 20) peer_1 (on_server credentials_1) 1 pause begun).1 ≡ err e
        → e ≢ ResponseStatus.ok
        → decode_transfer_status (
            response_payload
              (encode_control_response
                (trusted_at 20)
                peer_1
                pause
                (control_request credentials_1 1)
                begun).1)
          ≡ err (status_error e))
control_end_to_end_example =
    control_end_to_end (trusted_at 20) peer_1 credentials_1 1 pause begun
      credentials_1-IsCredentials (omega arith)
