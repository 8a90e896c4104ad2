-- ===== src/Tests/Wire.antt =====
-- Frames and payloads of src/clipboard/secure_transfer.rs at concrete inputs.
use clip_ferry.Common.{ℕ, ◌≡◌, ◌≤◌, refl, List, [], ◌∷◌, ◌++◌, length, All, bytes_eq, arith, some}
use clip_ferry.Common.Bytes.{IsByte, from_be_bytes, to_be_bytes, field_at}
use clip_ferry.Offer.Manifest.{Utf8, decode_manifest_response}
use clip_ferry.Common.Result.{IoError, ok, err}
use clip_ferry.Wire.Code.{encode_response_status, expired, running, encode_state}
use clip_ferry.Wire.Frame.{
  Frame, IsFrame, write_frame, read_frame_optional, frame_header, max_frame_payload, read_exact,
  read_header, array_at_io,
}
use clip_ferry.Wire.Frame.RoundTrip.{read_frame-write_frame}
use clip_ferry.Wire.Frame.Reject.{read_frame_canonical}
use clip_ferry.Wire.Message.{
  TransferCredentials, IsCredentials, TransferStatus, read_request, parse_read_request,
  decode_transfer_status, parse_begin_response, parse_read_response, read_response,
  encode_transfer_status,
}
use clip_ferry.Wire.Message.RoundTrip.{parse-read_request}
use clip_ferry.Wire.Message.Responses.{RefusalKind, refusal_reaches_client, parse-read_response}

abbrev pub sixteen : ℕ → List ℕ
sixteen b = b ∷ b ∷ b ∷ b ∷ b ∷ b ∷ b ∷ b ∷ b ∷ b ∷ b ∷ b ∷ b ∷ b ∷ b ∷ b ∷ []

abbrev pub credentials_1 : TransferCredentials
credentials_1 = record {
  offer_id = sixteen 1;
  file_id = sixteen 2;
  transfer_id = sixteen 3;
  capability = sixteen 4 ++ sixteen 5;
  server_nonce = sixteen 6 ++ sixteen 7;
  expires_at_millis = 900000;
}

pub credentials_1-IsCredentials : IsCredentials credentials_1
credentials_1-IsCredentials = record {
  offer_16 = refl;
  file_16 = refl;
  transfer_16 = refl;
  capability_32 = refl;
  nonce_32 = refl;
}

abbrev frame_1 : Frame
frame_1 = record { opcode = 3; request_id = 7; payload = 10 ∷ 20 ∷ [] }

abbrev frame_1_bytes : List ℕ
frame_1_bytes =
    67 ∷ 70 ∷ 83 ∷ 52 ∷ 0 ∷ 2 ∷ 0 ∷ 3 ∷ 0 ∷ 0 ∷ 0 ∷ 0 ∷ 0 ∷ 0 ∷ 0 ∷ 7 ∷ 0 ∷ 0 ∷ 0 ∷ 2 ∷ 10 ∷ 20 ∷ []

frame_1-IsFrame : IsFrame frame_1
frame_1-IsFrame = record {
  opcode_u16 = omega arith;
  request_id_u64 = omega arith;
  payload_u8 = (omega arith, (omega arith, tt));
}

write_frame_1 : write_frame [] frame_1 ≡ ok frame_1_bytes
unfolding write_frame frame_header to_be_bytes
write_frame_1 = refl

read_frame_1 : read_frame_optional (frame_1_bytes ++ (99 ∷ [])) ≡ ok (some frame_1, 99 ∷ [])
unfolding read_frame_optional read_header read_exact array_at_io field_at from_be_bytes bytes_eq
read_frame_1 = refl

read_frame-write_frame_example :
    read_frame_optional (frame_1_bytes ++ (99 ∷ [])) ≡ ok (some frame_1, 99 ∷ [])
read_frame-write_frame_example =
    read_frame-write_frame frame_1 frame_1_bytes (99 ∷ []) frame_1-IsFrame write_frame_1

stream_bytes : All IsByte (frame_1_bytes ++ (99 ∷ []))
stream_bytes = (
  omega arith,
  (
    omega arith,
    (
      omega arith,
      (
        omega arith,
        (
          omega arith,
          (
            omega arith,
            (
              omega arith,
              (
                omega arith,
                (
                  omega arith,
                  (
                    omega arith,
                    (
                      omega arith,
                      (
                        omega arith,
                        (
                          omega arith,
                          (
                            omega arith,
                            (
                              omega arith,
                              (
                                omega arith,
                                (
                                  omega arith,
                                  (
                                    omega arith,
                                    (
                                      omega arith,
                                      (
                                        omega arith,
                                        (omega arith, (omega arith, (omega arith, tt))),
                                      ),
                                    ),
                                  ),
                                ),
                              ),
                            ),
                          ),
                        ),
                      ),
                    ),
                  ),
                ),
              ),
            ),
          ),
        ),
      ),
    ),
  ),
)

read_frame_canonical_example :
    IsFrame frame_1
    × (length frame_1.payload ≤ max_frame_payload)
    × (write_frame [] frame_1
        ≡ ok (frame_header frame_1 (length frame_1.payload) ++ frame_1.payload))
    × (frame_1_bytes ++ (99 ∷ [])
        ≡ (frame_header frame_1 (length frame_1.payload) ++ frame_1.payload) ++ (99 ∷ []))
read_frame_canonical_example =
    read_frame_canonical (frame_1_bytes ++ (99 ∷ [])) (99 ∷ []) frame_1 stream_bytes read_frame_1

parse-read_request_example :
    parse_read_request (read_request credentials_1 4096 65536)
    ≡ ok (record credentials_1 { expires_at_millis = 0 }, 4096, 65536)
parse-read_request_example =
    parse-read_request credentials_1 4096 65536 credentials_1-IsCredentials (omega arith)
      (omega arith)

abbrev any_text : Utf8
any_text = record { as_bytes = λ s. s; from_utf8 = λ b. some b }

refusal_reaches_client_example :
    (k : IoError) × RefusalKind expired k
    × (decode_manifest_response (λ c. c ∷ []) any_text (encode_response_status expired ∷ [])
        ≡ err k)
    × (parse_begin_response (sixteen 1) (sixteen 2) (encode_response_status expired ∷ []) ≡ err k)
    × (parse_read_response 512 (encode_response_status expired ∷ []) ≡ err k)
    × (decode_transfer_status (encode_response_status expired ∷ []) ≡ err k)
refusal_reaches_client_example =
    refusal_reaches_client expired (λ c. c ∷ []) any_text (sixteen 1) (sixteen 2) 512 (λ e. cc)

abbrev status_1 : TransferStatus
status_1 = record { state = running; unique_bytes = 3 }

read_response_1 :
    read_response status_1 (8 ∷ 9 ∷ [])
    ≡ ok (0 ∷ 0 ∷ 0 ∷ 0 ∷ 0 ∷ 0 ∷ 0 ∷ 0 ∷ 0 ∷ 3 ∷ 0 ∷ 0 ∷ 0 ∷ 2 ∷ 8 ∷ 9 ∷ [])
unfolding read_response encode_transfer_status encode_state to_be_bytes encode_response_status
read_response_1 = refl

parse-read_response_example :
    parse_read_response 4 (0 ∷ 0 ∷ 0 ∷ 0 ∷ 0 ∷ 0 ∷ 0 ∷ 0 ∷ 0 ∷ 3 ∷ 0 ∷ 0 ∷ 0 ∷ 2 ∷ 8 ∷ 9 ∷ [])
    ≡ ok (status_1, 8 ∷ 9 ∷ [])
parse-read_response_example =
    parse-read_response status_1 (8 ∷ 9 ∷ [])
      (0 ∷ 0 ∷ 0 ∷ 0 ∷ 0 ∷ 0 ∷ 0 ∷ 0 ∷ 0 ∷ 3 ∷ 0 ∷ 0 ∷ 0 ∷ 2 ∷ 8 ∷ 9 ∷ []) 4 (omega arith)
      (omega arith) read_response_1
