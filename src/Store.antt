-- ===== src/Store.antt =====
-- The files of the device store: `encode_identity_bundle`, `decode_identity_bundle`,
-- `encode_trust_record`, `decode_peer_file`, `validate_certificate` and `validate_label` of
-- src/device_store.rs. The fingerprint of a certificate, UTF-8 and white space, which libraries define,
-- are arguments; texts are lists of code points.
pub mod Fingerprint
pub mod Peers
pub mod RoundTrip
pub mod Settings
use clip_ferry.Common.{
  ℕ, ◌+◌, ◌*◌, ◌^◌, Bool, true, false, Option, none, some, List, [], ◌∷◌, ◌++◌, length, take, drop,
  leb, ltb, ◌==◌, ◌&&◌, not, bytes_eq, if◌then◌else◌,
}
use clip_ferry.Common.Bytes.{concat, field_at}
use clip_ferry.Common.Result.{IoResult, ok, err, ok_or, guard, ◌>>=◌, ◌>>◌, invalid_data}
use clip_ferry.Wire.Frame.{array_at_io}
use clip_ferry.Offer.Paths.{any, is_control_char}
use clip_ferry.Offer.Manifest.{Utf8}
use clip_ferry.Pairing.Hello.{to_le_bytes, from_le_bytes, certificate_limit}

-- b"CFID\x01\0\0\0"
abbrev pub identity_magic : List ℕ
identity_magic = b'C' ∷ b'F' ∷ b'I' ∷ b'D' ∷ 1 ∷ 0 ∷ 0 ∷ 0 ∷ []

-- b"CFPR\x01\0\0\0"
abbrev pub trust_magic : List ℕ
trust_magic = b'C' ∷ b'F' ∷ b'P' ∷ b'R' ∷ 1 ∷ 0 ∷ 0 ∷ 0 ∷ []

abbrev pub private_key_limit : ℕ
private_key_limit = 64 * 1024

abbrev pub label_byte_limit : ℕ
label_byte_limit = 128

unfoldable pub validate_certificate : List ℕ → IoResult (Unit {0})
validate_certificate certificate =
    guard (not (length certificate == 0) && leb (length certificate) certificate_limit) invalid_data

unfoldable pub validate_private_key : List ℕ → IoResult (Unit {0})
validate_private_key key =
    guard (not (length key == 0) && leb (length key) private_key_limit) invalid_data

abbrev pub bundle_fields : List ℕ → List ℕ → List (List ℕ)
bundle_fields certificate key =
    identity_magic
    ∷ to_le_bytes 4 (length certificate)
    ∷ to_le_bytes 4 (length key)
    ∷ certificate
    ∷ key
    ∷ []

unfoldable pub encode_identity_bundle : List ℕ → List ℕ → IoResult (List ℕ)
encode_identity_bundle certificate key = do
  validate_certificate certificate
  validate_private_key key
  guard (ltb (length certificate) (256 ^ 4)) invalid_data
  guard (ltb (length key) (256 ^ 4)) invalid_data
  ok (concat (bundle_fields certificate key))

unfoldable pub decode_identity_bundle : List ℕ → IoResult (List ℕ × List ℕ)
unfolding array_at_io
decode_identity_bundle encoded = do
  guard (leb 16 (length encoded) && bytes_eq (take 8 encoded) identity_magic) invalid_data
  certificate_length ← array_at_io 4 encoded 8
  key_length ← array_at_io 4 encoded 12
  guard (length encoded == 16 + from_le_bytes certificate_length + from_le_bytes key_length)
      invalid_data
  certificate ← array_at_io (from_le_bytes certificate_length) encoded 16
  let key = drop (16 + from_le_bytes certificate_length) encoded
  validate_certificate certificate
  validate_private_key key
  ok (certificate, key)

pub record TrustedPeer : Type 0 where
  pub fingerprint : List ℕ
  pub label : List ℕ
  pub certificate : List ℕ

-- `trim_start`
unfoldable pub trim_start : (ℕ → Bool) → List ℕ → List ℕ
trim_start is_whitespace [] = []
trim_start is_whitespace (c ∷ cs) =
    let rest = trim_start is_whitespace cs in if is_whitespace c then rest else c ∷ cs

-- One more character in front of what is left of the rest.
abbrev pub keep_end : (ℕ → Bool) → ℕ → List ℕ → List ℕ
keep_end is_whitespace c [] = if is_whitespace c then [] else c ∷ []
keep_end is_whitespace c (d ∷ ds) = c ∷ d ∷ ds

unfoldable pub trim_end : (ℕ → Bool) → List ℕ → List ℕ
trim_end is_whitespace [] = []
trim_end is_whitespace (c ∷ cs) = keep_end is_whitespace c (trim_end is_whitespace cs)

unfoldable pub trim : (ℕ → Bool) → List ℕ → List ℕ
unfolding trim_start trim_end
trim is_whitespace text = trim_end is_whitespace (trim_start is_whitespace text)

module _ (utf8 : Utf8) (is_whitespace : ℕ → Bool) (fingerprint_of : List ℕ → List ℕ) where
  -- The label without white space around it.
  unfoldable pub validate_label : List ℕ → IoResult (List ℕ)
  validate_label text =
      let label = trim is_whitespace text in
      if not (length label == 0)
        && (leb (length (utf8.as_bytes label)) label_byte_limit && not (any is_control_char label))
      then ok label
      else err invalid_data

  abbrev pub record_fields : List ℕ → List ℕ → List (List ℕ)
  record_fields certificate label =
      trust_magic
      ∷ to_le_bytes 4 (length certificate)
      ∷ to_le_bytes 2 (length (utf8.as_bytes label))
      ∷ certificate
      ∷ utf8.as_bytes label
      ∷ []

  unfoldable pub encode_trust_record : TrustedPeer → IoResult (List ℕ)
  encode_trust_record peer = do
    validate_certificate peer.certificate
    label ← validate_label peer.label
    guard (ltb (length peer.certificate) (256 ^ 4)) invalid_data
    guard (ltb (length (utf8.as_bytes label)) (256 ^ 2)) invalid_data
    ok (concat (record_fields peer.certificate label))

  -- `decode_peer_file` on the bytes of the file.
  unfoldable pub decode_trust_record : List ℕ → List ℕ → IoResult TrustedPeer
  unfolding array_at_io
  decode_trust_record encoded expected = do
    guard (leb 14 (length encoded) && bytes_eq (take 8 encoded) trust_magic) invalid_data
    certificate_length ← array_at_io 4 encoded 8
    label_length ← array_at_io 2 encoded 12
    guard (length encoded == 14 + from_le_bytes certificate_length + from_le_bytes label_length)
        invalid_data
    certificate ← array_at_io (from_le_bytes certificate_length) encoded 14
    validate_certificate certificate
    guard (bytes_eq (fingerprint_of certificate) expected) invalid_data
    text ←
        ok_or (utf8.from_utf8 (drop (14 + from_le_bytes certificate_length) encoded)) invalid_data
    label ← validate_label text
    ok (record {
      fingerprint = fingerprint_of certificate;
      label = label;
      certificate = certificate;
    })
