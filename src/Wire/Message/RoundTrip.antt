-- ===== src/Wire/Message/RoundTrip.antt =====
-- What one side of the secure protocol builds, the other side reads back.
use clip_ferry.Common.{
  ℕ, ◌-◌, ◌^◌, ◌≤◌, ◌<◌, ◌≡◌, refl, some, List, ◌++◌, length, get_elem?, arith, length-append,
}
use clip_ferry.Common.Bytes.{
  to_be_bytes, field_at, field_at-concat, from-to_be_bytes, length-to_be_bytes, offset_of, be_end,
  be_here, be_skip, field_at-skip,
}
use clip_ferry.Common.Result.{ok}
use clip_ferry.Wire.Message.{
  TransferCredentials, IsCredentials, encode_credentials, decode_credentials, credential_fields,
  read_request, parse_read_request, control_request, parse_control_request,
}

pub length-encode_credentials :
    (c : TransferCredentials) → IsCredentials c → length (encode_credentials c) ≡ 112
unfolding encode_credentials
length-encode_credentials c v = simp length-append (omega arith)

pub credential_field :
    (c : TransferCredentials) (rest : List ℕ) (i n k : ℕ) (f : List ℕ)
    → get_elem? (credential_fields c) i ≡ some f
    → offset_of (credential_fields c) i ≡ k
    → length f ≡ n
    → field_at n (encode_credentials c ++ rest) k ≡ some f
unfolding encode_credentials
credential_field c rest i n k f h o e = field_at-concat (credential_fields c) i n k rest f h o e

-- Credentials are read back from any payload that begins with them; the lifetime is not sent.
pub decode-encode_credentials :
    (c : TransferCredentials) (rest : List ℕ)
    → IsCredentials c
    → decode_credentials (encode_credentials c ++ rest) ≡ ok (record c { expires_at_millis = 0 })
unfolding decode_credentials
decode-encode_credentials c rest v = ground (
  arith,
  length-append (encode_credentials c) rest,
  length-encode_credentials c v,
  credential_field c rest 0 16 0 c.offer_id refl refl v.offer_16,
  credential_field c rest 1 16 16 c.file_id refl (omega arith) v.file_16,
  credential_field c rest 2 16 32 c.transfer_id refl (omega arith) v.transfer_16,
  credential_field c rest 3 32 48 c.capability refl (omega arith) v.capability_32,
  credential_field c rest 4 32 80 c.server_nonce refl (omega arith) v.nonce_32,
)

-- Behind the credentials a payload's fields follow at 112.
after_credentials :
    (c : TransferCredentials) (rest : List ℕ) (n s : ℕ)
    → IsCredentials c
    → 112 ≤ s
    → field_at n (encode_credentials c ++ rest) s ≡ field_at n rest (s - 112)
after_credentials c rest n s v h =
    field_at-skip (encode_credentials c) rest n s 112 (length-encode_credentials c v) h

-- The server reads the client's ReadRange request back: credentials, offset and count.
pub parse-read_request :
    (c : TransferCredentials) (offset requested : ℕ)
    → IsCredentials c
    → offset < 256 ^ 8
    → requested < 256 ^ 4
    → parse_read_request (read_request c offset requested)
      ≡ ok (record c { expires_at_millis = 0 }, offset, requested)
unfolding parse_read_request read_request
parse-read_request c offset requested v ho hr =
    let fields : List ℕ = to_be_bytes 8 offset ++ to_be_bytes 4 requested in
    ground (
      arith,
      length-append (encode_credentials c) fields,
      length-encode_credentials c v,
      length-append (to_be_bytes 8 offset) (to_be_bytes 4 requested),
      length-to_be_bytes 8 offset,
      length-to_be_bytes 4 requested,
      decode-encode_credentials c fields v,
      after_credentials c fields 8 112 v (omega arith),
      after_credentials c fields 4 120 v (omega arith),
      be_here 8 offset (to_be_bytes 4 requested),
      be_skip 8 offset (to_be_bytes 4 requested) 4 8 (omega arith),
      be_end 4 requested,
      from-to_be_bytes 8 offset ho,
      from-to_be_bytes 4 requested hr,
    )

-- The server reads the client's control request back: credentials and sequence number.
pub parse-control_request :
    (c : TransferCredentials) (sequence : ℕ)
    → IsCredentials c
    → sequence < 256 ^ 8
    → parse_control_request (control_request c sequence)
      ≡ ok (record c { expires_at_millis = 0 }, sequence)
unfolding parse_control_request control_request
parse-control_request c sequence v h = ground (
  arith,
  length-append (encode_credentials c) (to_be_bytes 8 sequence),
  length-encode_credentials c v,
  length-to_be_bytes 8 sequence,
  decode-encode_credentials c (to_be_bytes 8 sequence) v,
  after_credentials c (to_be_bytes 8 sequence) 8 112 v (omega arith),
  be_end 8 sequence,
  from-to_be_bytes 8 sequence h,
)
