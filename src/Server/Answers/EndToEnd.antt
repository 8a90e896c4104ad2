-- ===== src/Server/Answers/EndToEnd.antt =====
-- A control command from the client's request to what the client makes of the answer.
use clip_ferry.Common.{ℕ, ◌≡◌, ◌≢◌, ◌<◌, ◌^◌, inl, inr, refl, List, []}
use clip_ferry.Common.Bytes.{to_be_bytes}
use clip_ferry.Common.Result.{ok, err}
use clip_ferry.Wire.Code.{Opcode, ResponseStatus, status_error}
use clip_ferry.Wire.Message.{
  TransferCredentials, IsCredentials, TransferStatus, control_request, decode_transfer_status,
  encode_transfer_status,
}
use clip_ferry.Wire.Message.RoundTrip.{parse-control_request}
use clip_ferry.Wire.Message.Responses.{decode-encode_transfer_status, decode_refused}
use clip_ferry.Server.State.{ServerState, Moment}
use clip_ferry.Server.Peers.Auth.{Result-cases}
use clip_ferry.Server.Control.{control}
use clip_ferry.Server.Answers.{response_payload, encode_control_response}

-- What the server knows of the credentials that a request carries.
abbrev pub on_server : TransferCredentials → TransferCredentials
on_server c = record c { expires_at_millis = 0 }

-- A control command sent by the client runs `control` on the server with the client's credentials
-- and number, and the answer gives the client just its outcome: the status that `control` ended with,
-- if its count fits 64 bits, or the error kind of its refusal.
pub control_end_to_end :
    (m : Moment) (peer : List ℕ) (c : TransferCredentials) (sequence : ℕ) (o : Opcode)
    (s : ServerState)
    → IsCredentials c
    → sequence < 256 ^ 8
    → ((encode_control_response m peer o (control_request c sequence) s).0
        ≡ (control m peer (on_server c) sequence o s).0)
      × ((st : TransferStatus)
          → (control m peer (on_server c) sequence o s).1 ≡ ok st
          → st.unique_bytes < 256 ^ 8
          → decode_transfer_status
              (response_payload (encode_control_response m peer o (control_request c sequence) s).1)
            ≡ ok st)
      × ((e : ResponseStatus)
          → (control m peer (on_server c) sequence o s).1 ≡ err e
          → e ≢ ResponseStatus.ok
          → decode_transfer_status
              (response_payload (encode_control_response m peer o (control_request c sequence) s).1)
            ≡ err (status_error e))
unfolding encode_control_response response_payload encode_transfer_status to_be_bytes
control_end_to_end m peer c sequence o s v small =
    let parsed = parse-control_request c sequence v small in
    (
      elim (Result-cases (control m peer (on_server c) sequence o s).1) [
        | inl (st, e) ↦ rw (parsed, e) refl
        | inr (y, e) ↦ rw (parsed, e) refl
      ],
      λ st e fits. rw (parsed, e) (decode-encode_transfer_status st [] fits),
      λ y e refused. rw (parsed, e) (decode_refused y refused),
    )
