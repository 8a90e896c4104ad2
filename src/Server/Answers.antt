-- ===== src/Server/Answers.antt =====
-- The server's answers to the requests of a connection: `encode_begin_response`,
-- `encode_control_response`, `encode_status_response` and the end of `dispatch_request` of
-- src/clipboard/secure_transfer.rs.
pub mod EndToEnd
use clip_ferry.Common.{ℕ, ◌==◌, ◌∷◌, [], List, length}
use clip_ferry.Common.Result.{Result, ok, err, guard}
use clip_ferry.Wire.Code.{Opcode, WireResult, ResponseStatus, encode_response_status, invalid}
use clip_ferry.Wire.Message.{
  TransferCredentials, TransferStatus, wire_len, decode_credentials, encode_transfer_status,
  parse_control_request, parse_begin_request, begin_response,
}
use clip_ferry.Server.State.{ServerState, Moment, M, ◌>>=◌, ◌>>◌, pure}
use clip_ferry.Server.Begin.{Draw, begin_transfer}
use clip_ferry.Server.Control.{control, status}

-- A test or a parse in the middle of an operation.
abbrev pub lift : {A : Type 0} → WireResult A → M A
lift r s = (s, r)

-- `result.unwrap_or_else(|status| vec![status.encode()])`
unfoldable pub response_payload : WireResult (List ℕ) → List ℕ
response_payload (ok payload) = payload
response_payload (err e) = encode_response_status e ∷ []

unfoldable pub encode_control_response : Moment → List ℕ → Opcode → List ℕ → M (List ℕ)
encode_control_response m peer opcode payload = do
  (credentials, sequence) ← lift (parse_control_request payload)
  status ← control m peer credentials sequence opcode
  pure (encode_transfer_status status)

unfoldable pub encode_status_response : Moment → List ℕ → List ℕ → M (List ℕ)
encode_status_response m peer payload = do
  lift (guard (length payload == wire_len) invalid)
  credentials ← lift (decode_credentials payload)
  status ← status m peer credentials
  pure (encode_transfer_status status)

unfoldable pub encode_begin_response : Moment → ℕ → Draw → List ℕ → List ℕ → M (List ℕ)
encode_begin_response m later draw peer payload = do
  (offer_id, file_id, nonce) ← lift (parse_begin_request payload)
  credentials ← begin_transfer m later draw peer offer_id file_id nonce
  pure (begin_response credentials)
