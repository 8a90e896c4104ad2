-- ===== src/Wire/Message.antt =====
-- The payloads of the secure protocol (src/clipboard/secure_transfer.rs): credentials, transfer
-- status, and the requests and responses of BeginTransfer, ReadRange and the control commands.
pub mod RoundTrip
pub mod Responses
use clip_ferry.Common.{
  ℕ, ◌+◌, ◌*◌, ◌^◌, ◌<◌, ◌≡◌, Bool, true, false, List, [], ◌∷◌, ◌++◌, length, get_elem?, drop, leb,
  ltb, ◌==◌, ◌&&◌, bytes_eq, not, All,
}
use clip_ferry.Common.Bytes.{IsByte, to_be_bytes, from_be_bytes, field_at, concat}
use clip_ferry.Common.Result.{Result, IoResult, guard, ok_or, ◌>>=◌, ◌>>◌, err, invalid_data}
use clip_ferry.Wire.Code.{
  WireResult, ResponseStatus, invalid, internal, RemoteTransferState, encode_response_status,
  decode_response_status, status_error, encode_state, decode_state,
}
use clip_ferry.Wire.Frame.{array_at, array_at_io}

pub record TransferCredentials : Type 0 where
  pub offer_id : List ℕ
  pub file_id : List ℕ
  pub transfer_id : List ℕ
  pub capability : List ℕ
  pub server_nonce : List ℕ
  pub expires_at_millis : ℕ

-- The lengths of the arrays in the fields' types.
pub record IsCredentials (c : TransferCredentials) : Type 0 where
  pub offer_16 : length c.offer_id ≡ 16
  pub file_16 : length c.file_id ≡ 16
  pub transfer_16 : length c.transfer_id ≡ 16
  pub capability_32 : length c.capability ≡ 32
  pub nonce_32 : length c.server_nonce ≡ 32

abbrev pub wire_len : ℕ
wire_len = 112

abbrev pub max_secure_range_bytes : ℕ
max_secure_range_bytes = 256 * 1024

abbrev pub credential_fields : TransferCredentials → List (List ℕ)
credential_fields c = c.offer_id ∷ c.file_id ∷ c.transfer_id ∷ c.capability ∷ c.server_nonce ∷ []

unfoldable pub encode_credentials : TransferCredentials → List ℕ
encode_credentials c = concat (credential_fields c)

unfoldable pub decode_credentials : List ℕ → WireResult TransferCredentials
unfolding array_at
decode_credentials bytes = do
  guard (leb wire_len (length bytes)) invalid
  offer_id ← array_at 16 bytes 0
  file_id ← array_at 16 bytes 16
  transfer_id ← array_at 16 bytes 32
  capability ← array_at 32 bytes 48
  server_nonce ← array_at 32 bytes 80
  Result.ok (record {
    offer_id = offer_id;
    file_id = file_id;
    transfer_id = transfer_id;
    capability = capability;
    server_nonce = server_nonce;
    expires_at_millis = 0;
  })

pub record TransferStatus : Type 0 where
  pub state : RemoteTransferState
  pub unique_bytes : ℕ

unfoldable pub encode_transfer_status : TransferStatus → List ℕ
unfolding encode_response_status
encode_transfer_status s =
    encode_response_status ResponseStatus.ok ∷ encode_state s.state ∷ to_be_bytes 8 s.unique_bytes

unfoldable pub only_ok : ResponseStatus → IoResult (Unit {0})
only_ok ResponseStatus.ok = Result.ok tt
only_ok other = err (status_error other)

unfoldable pub require_ok : List ℕ → IoResult (Unit {0})
unfolding only_ok
require_ok response = do
  status ← ok_or (get_elem? response 0) invalid_data
  status' ← decode_response_status status
  only_ok status'

unfoldable pub decode_transfer_status : List ℕ → IoResult TransferStatus
unfolding array_at_io
decode_transfer_status response = do
  require_ok response
  guard (leb 10 (length response)) invalid_data
  code ← ok_or (get_elem? response 1) invalid_data
  state ← decode_state code
  unique ← array_at_io 8 response 2
  Result.ok (record { state = state; unique_bytes = from_be_bytes unique })

-- A ReadRange request: `read_range_interruptible` builds it, `encode_read_response` reads it.
unfoldable pub read_request : TransferCredentials → ℕ → ℕ → List ℕ
unfolding encode_credentials
read_request c offset requested =
    encode_credentials c ++ (to_be_bytes 8 offset ++ to_be_bytes 4 requested)

unfoldable pub parse_read_request : List ℕ → WireResult (TransferCredentials × ℕ × ℕ)
unfolding array_at
parse_read_request payload = do
  guard (length payload == wire_len + 12) invalid
  credentials ← decode_credentials payload
  offset ← array_at 8 payload wire_len
  requested ← array_at 4 payload (wire_len + 8)
  Result.ok (credentials, from_be_bytes offset, from_be_bytes requested)

-- A control request: built by `control_interruptible` and `control_once`.
unfoldable pub control_request : TransferCredentials → ℕ → List ℕ
unfolding encode_credentials
control_request c sequence = encode_credentials c ++ to_be_bytes 8 sequence

unfoldable pub parse_control_request : List ℕ → WireResult (TransferCredentials × ℕ)
unfolding array_at
parse_control_request payload = do
  guard (length payload == wire_len + 8) invalid
  credentials ← decode_credentials payload
  sequence ← array_at 8 payload wire_len
  Result.ok (credentials, from_be_bytes sequence)

-- Is every byte zero?
unfoldable pub all_zero : List ℕ → Bool
all_zero [] = true
all_zero (b ∷ bs) = (b == 0) && all_zero bs

unfoldable pub begin_request : List ℕ → List ℕ → List ℕ → List ℕ
begin_request offer_id file_id nonce = concat (offer_id ∷ file_id ∷ nonce ∷ [])

unfoldable pub parse_begin_request : List ℕ → WireResult (List ℕ × List ℕ × List ℕ)
unfolding array_at
parse_begin_request payload = do
  guard (length payload == 64) invalid
  offer_id ← array_at 16 payload 0
  file_id ← array_at 16 payload 16
  nonce ← array_at 32 payload 32
  guard (not (all_zero nonce)) invalid
  Result.ok (offer_id, file_id, nonce)

-- The success response of `encode_begin_response`.
unfoldable pub begin_response : TransferCredentials → List ℕ
unfolding encode_response_status
begin_response c =
    encode_response_status ResponseStatus.ok
    ∷ (concat (credential_fields c) ++ to_be_bytes 8 c.expires_at_millis)

-- What `begin_transfer_interruptible` makes of it, for the offer and the file that it asked for.
unfoldable pub parse_begin_response : List ℕ → List ℕ → List ℕ → IoResult TransferCredentials
unfolding array_at_io
parse_begin_response offer file response = do
  require_ok response
  guard (length response == 121) invalid_data
  offer_id ← array_at_io 16 response 1
  file_id ← array_at_io 16 response 17
  transfer_id ← array_at_io 16 response 33
  capability ← array_at_io 32 response 49
  server_nonce ← array_at_io 32 response 81
  expires ← array_at_io 8 response 113
  guard (bytes_eq offer_id offer && bytes_eq file_id file) invalid_data
  Result.ok (record {
    offer_id = offer_id;
    file_id = file_id;
    transfer_id = transfer_id;
    capability = capability;
    server_nonce = server_nonce;
    expires_at_millis = from_be_bytes expires;
  })

-- The success response of `encode_read_response`.
unfoldable pub read_response : TransferStatus → List ℕ → WireResult (List ℕ)
read_response status bytes = do
  guard (ltb (length bytes) (256 ^ 4)) internal
  Result.ok ((encode_transfer_status status ++ to_be_bytes 4 (length bytes)) ++ bytes)

-- What `read_range_interruptible` makes of it, for the count that it asked for.
unfoldable pub parse_read_response : ℕ → List ℕ → IoResult (TransferStatus × List ℕ)
unfolding array_at_io
parse_read_response requested response = do
  status ← decode_transfer_status response
  guard (leb 14 (length response)) invalid_data
  length_bytes ← array_at_io 4 response 10
  guard
      ((length response == 14 + from_be_bytes length_bytes)
        && leb (from_be_bytes length_bytes) requested)
      invalid_data
  Result.ok (status, drop 14 response)
