-- ===== src/Wire/Message/Responses.antt =====
-- What the server of the secure protocol answers, the client reads back.
use clip_ferry.Common.{
  ℕ, ◌+◌, ◌-◌, ◌^◌, ◌≤◌, ◌<◌, ◌≡◌, ◌≢◌, ◌∙◌, refl, ap, some, List, [], ◌∷◌, ◌++◌, length, get_elem?,
  arith, length-append, drop, drop-length, drop-append_add, bytes_eq_refl,
}
use mathlib.Core.List.{append_assoc}
use clip_ferry.Common.Bytes.{
  to_be_bytes, field_at, from-to_be_bytes, offset_of, length-to_be_bytes, be_end, be_here,
  field_at-skip,
}
use clip_ferry.Common.Result.{
  IoError, ok, err, invalid_data, permission_denied, timed_out, would_block, interrupted, other,
}
use clip_ferry.Offer.Manifest.{Utf8, decode_manifest_response}
use clip_ferry.Wire.Code.{
  ResponseStatus, encode_state, decode_state_iff, encode_response_status, decode_response_status,
  status_error,
}
use clip_ferry.Wire.Message.{
  TransferCredentials, IsCredentials, TransferStatus, credential_fields, encode_credentials,
  encode_transfer_status, require_ok, only_ok, decode_transfer_status, begin_response,
  parse_begin_response, read_response, parse_read_response,
}
use clip_ferry.Wire.Message.RoundTrip.{credential_field, length-encode_credentials}

-- A status is read back from any response that begins with it.
pub decode-encode_transfer_status :
    (s : TransferStatus) (rest : List ℕ)
    → s.unique_bytes < 256 ^ 8
    → decode_transfer_status (encode_transfer_status s ++ rest) ≡ ok s
unfolding decode_transfer_status encode_transfer_status require_ok decode_response_status only_ok
decode-encode_transfer_status s rest h =
    let unique : field_at 8 (0 ∷ encode_state s.state ∷ (to_be_bytes 8 s.unique_bytes ++ rest)) 2
        ≡ some (to_be_bytes 8 s.unique_bytes) =
      (field_at-skip (0 ∷ encode_state s.state ∷ []) (to_be_bytes 8 s.unique_bytes ++ rest) 8 2 2
          refl (omega arith)
        ∙ be_here 8 s.unique_bytes rest) in
    rw
      (
        (decode_state_iff (encode_state s.state) s.state).1 refl,
        unique,
        from-to_be_bytes 8 s.unique_bytes h,
      )
      (ground (
        arith,
        length-append (to_be_bytes 8 s.unique_bytes) rest,
        length-to_be_bytes 8 s.unique_bytes,
      ))

-- The error kind that a refusal stands for.
pub data RefusalKind : ResponseStatus → IoError → Type 0 where
  invalid_is : RefusalKind ResponseStatus.invalid invalid_data
  denied_is : RefusalKind ResponseStatus.denied permission_denied
  expired_is : RefusalKind ResponseStatus.expired timed_out
  replay_is : RefusalKind ResponseStatus.replay permission_denied
  busy_is : RefusalKind ResponseStatus.busy would_block
  cancelled_is : RefusalKind ResponseStatus.cancelled interrupted
  timeout_is : RefusalKind ResponseStatus.timeout timed_out
  source_changed_is : RefusalKind ResponseStatus.source_changed invalid_data
  internal_is : RefusalKind ResponseStatus.internal other

refusal_kind : (s : ResponseStatus) → s ≢ ResponseStatus.ok → (k : IoError) × RefusalKind s k
refusal_kind ResponseStatus.ok h = absurd (h refl)
refusal_kind ResponseStatus.invalid h = (invalid_data, invalid_is)
refusal_kind ResponseStatus.denied h = (permission_denied, denied_is)
refusal_kind ResponseStatus.expired h = (timed_out, expired_is)
refusal_kind ResponseStatus.replay h = (permission_denied, replay_is)
refusal_kind ResponseStatus.busy h = (would_block, busy_is)
refusal_kind ResponseStatus.cancelled h = (interrupted, cancelled_is)
refusal_kind ResponseStatus.timeout h = (timed_out, timeout_is)
refusal_kind ResponseStatus.source_changed h = (invalid_data, source_changed_is)
refusal_kind ResponseStatus.internal h = (other, internal_is)

require_ok_refused :
    (s : ResponseStatus) (k : IoError) (rest : List ℕ)
    → RefusalKind s k
    → require_ok (encode_response_status s ∷ rest) ≡ err k
unfolding require_ok only_ok decode_response_status encode_response_status status_error
require_ok_refused _ _ rest invalid_is = refl
require_ok_refused _ _ rest denied_is = refl
require_ok_refused _ _ rest expired_is = refl
require_ok_refused _ _ rest replay_is = refl
require_ok_refused _ _ rest busy_is = refl
require_ok_refused _ _ rest cancelled_is = refl
require_ok_refused _ _ rest timeout_is = refl
require_ok_refused _ _ rest source_changed_is = refl
require_ok_refused _ _ rest internal_is = refl

pub decode_refused :
    (s : ResponseStatus)
    → s ≢ ResponseStatus.ok
    → decode_transfer_status (encode_response_status s ∷ []) ≡ err (status_error s)
unfolding decode_transfer_status require_ok only_ok decode_response_status encode_response_status
decode_refused ResponseStatus.ok h = absurd (h refl)
decode_refused _ h = refl

-- Any refusal of the server reaches the client as an error of one kind, that of `RefusalKind`, whatever
-- the client asked for: the manifest, a transfer, a range, or a control command or the status.
pub refusal_reaches_client :
    (s : ResponseStatus) (lower : ℕ → List ℕ) (utf8 : Utf8) (offer file : List ℕ) (requested : ℕ)
    → s ≢ ResponseStatus.ok
    → (k : IoError) × RefusalKind s k
      × (decode_manifest_response lower utf8 (encode_response_status s ∷ []) ≡ err k)
      × (parse_begin_response offer file (encode_response_status s ∷ []) ≡ err k)
      × (parse_read_response requested (encode_response_status s ∷ []) ≡ err k)
      × (decode_transfer_status (encode_response_status s ∷ []) ≡ err k)
unfolding decode_transfer_status parse_begin_response parse_read_response decode_manifest_response
refusal_reaches_client s lower utf8 offer file requested h =
    let (k, kind) = refusal_kind s h in
    let refused = require_ok_refused s k [] kind in
    (k, kind, rw refused refl, rw refused refl, rw refused refl, rw refused refl)

begin_field :
    (c : TransferCredentials) (i n k : ℕ) (f : List ℕ)
    → get_elem? (credential_fields c) i ≡ some f
    → offset_of (credential_fields c) i ≡ k
    → length f ≡ n
    → field_at n (begin_response c) (k + 1) ≡ some f
unfolding begin_response encode_credentials
begin_field c i n k f h o e =
    let back : k + 1 - 1 ≡ k = omega arith in
    let rest : List ℕ = to_be_bytes 8 c.expires_at_millis in
    field_at-skip (0 ∷ []) (encode_credentials c ++ rest) n (k + 1) 1 refl (omega arith)
    ∙ rw back (credential_field c rest i n k f h o e)

expires_field :
    (c : TransferCredentials)
    → IsCredentials c
    → field_at 8 (begin_response c) 113 ≡ some (to_be_bytes 8 c.expires_at_millis)
unfolding begin_response encode_credentials
expires_field c v =
    let rest : List ℕ = to_be_bytes 8 c.expires_at_millis in
    field_at-skip (0 ∷ []) (encode_credentials c ++ rest) 8 113 1 refl (omega arith)
    ∙ field_at-skip (encode_credentials c) rest 8 112 112 (length-encode_credentials c v)
        (omega arith)
    ∙ be_end 8 c.expires_at_millis

length-begin_response :
    (c : TransferCredentials) → IsCredentials c → length (begin_response c) ≡ 121
unfolding begin_response encode_credentials
length-begin_response c v = omega (
  arith,
  length-append (encode_credentials c) (to_be_bytes 8 c.expires_at_millis),
  length-encode_credentials c v,
  length-to_be_bytes 8 c.expires_at_millis,
)

require_ok-begin_response : (c : TransferCredentials) → require_ok (begin_response c) ≡ ok tt
unfolding require_ok only_ok decode_response_status begin_response
require_ok-begin_response c = refl

-- The client gets the credentials that the server issued, lifetime included.
pub parse-begin_response :
    (c : TransferCredentials)
    → IsCredentials c
    → c.expires_at_millis < 256 ^ 8
    → parse_begin_response c.offer_id c.file_id (begin_response c) ≡ ok c
unfolding parse_begin_response
parse-begin_response c v h = ground (
  arith,
  require_ok-begin_response c,
  length-begin_response c v,
  begin_field c 0 16 0 c.offer_id refl refl v.offer_16,
  begin_field c 1 16 16 c.file_id refl (omega arith) v.file_16,
  begin_field c 2 16 32 c.transfer_id refl (omega arith) v.transfer_16,
  begin_field c 3 32 48 c.capability refl (omega arith) v.capability_32,
  begin_field c 4 32 80 c.server_nonce refl (omega arith) v.nonce_32,
  expires_field c v,
  from-to_be_bytes 8 c.expires_at_millis h,
  bytes_eq_refl c.offer_id,
  bytes_eq_refl c.file_id,
)

length-encode_transfer_status : (s : TransferStatus) → length (encode_transfer_status s) ≡ 10
unfolding encode_transfer_status
length-encode_transfer_status s = omega (arith, length-to_be_bytes 8 s.unique_bytes)

module _ (s : TransferStatus) (bytes : List ℕ) where
  body : List ℕ
  body = encode_transfer_status s ++ (to_be_bytes 4 (length bytes) ++ bytes)

  count_field : field_at 4 body 10 ≡ some (to_be_bytes 4 (length bytes))
  unfolding body
  count_field =
      field_at-skip (encode_transfer_status s) (to_be_bytes 4 (length bytes) ++ bytes) 4 10 10
        (length-encode_transfer_status s) (omega arith)
      ∙ be_here 4 (length bytes) bytes

  length-body : length body ≡ 14 + length bytes
  unfolding body
  length-body = omega (
    arith,
    length-append (encode_transfer_status s) (to_be_bytes 4 (length bytes) ++ bytes),
    length-encode_transfer_status s,
    length-append (to_be_bytes 4 (length bytes)) bytes,
    length-to_be_bytes 4 (length bytes),
  )

  drop-body : drop 14 body ≡ bytes
  unfolding body
  drop-body =
      ap (λ k. drop k body)
        (let e : 14 ≡ length (encode_transfer_status s) + 4 =
            omega (arith, length-encode_transfer_status s) in
          e)
      ∙ drop-append_add (encode_transfer_status s) (to_be_bytes 4 (length bytes) ++ bytes) 4
      ∙ drop-length (to_be_bytes 4 (length bytes)) bytes 4 (length-to_be_bytes 4 (length bytes))

  read_response-body :
      (response : List ℕ)
      → read_response s bytes ≡ ok response
      → (response ≡ body) × (length bytes < 256 ^ 4)
  unfolding read_response body
  read_response-body response e =
      ground (arith, append_assoc (encode_transfer_status s) (to_be_bytes 4 (length bytes)) bytes)

-- The client gets the status and the bytes that the server read, if they are no more than it asked
-- for.
pub parse-read_response :
    (s : TransferStatus) (bytes response : List ℕ) (requested : ℕ)
    → s.unique_bytes < 256 ^ 8
    → length bytes ≤ requested
    → read_response s bytes ≡ ok response
    → parse_read_response requested response ≡ ok (s, bytes)
unfolding parse_read_response
parse-read_response s bytes response requested h le e =
    let (same, fits) = read_response-body s bytes response e in
    let status : decode_transfer_status (body s bytes) ≡ ok s =
      (unfold body in decode-encode_transfer_status s (to_be_bytes 4 (length bytes) ++ bytes) h) in
    rw same (
      ground (
        arith,
        status,
        length-body s bytes,
        count_field s bytes,
        drop-body s bytes,
        from-to_be_bytes 4 (length bytes) fits,
      ))
