-- ===== src/Store/RoundTrip.antt =====
-- The files that the device store writes are read back.
use clip_ferry.Common.{
  ℕ, ◌+◌, ◌^◌, ◌≡◌, ◌∙◌, ◌<◌, refl, sym, ap, Bool, true, false, some, List, [], ◌∷◌, length, drop,
  leb, ◌==◌, bytes_eq, bytes_eq_refl, if◌then◌else◌, arith, length-append, Bool-cases, inl, inr,
}
use clip_ferry.Common.Bytes.{concat, field_at-concat_end}
use clip_ferry.Common.Fields.{field_to_end}
use clip_ferry.Common.Result.{ok, err, invalid_data, >>=-eq-ok}
use clip_ferry.Wire.Frame.{array_at_io}
use clip_ferry.Offer.Manifest.{Utf8}
use clip_ferry.Pairing.Hello.{to_le_bytes, length-to_le_bytes, from-to_le_bytes}
use clip_ferry.Store.{
  identity_magic, trust_magic, validate_certificate, validate_private_key, bundle_fields,
  encode_identity_bundle, decode_identity_bundle, TrustedPeer, trim_start, trim_end, trim,
  validate_label, record_fields, encode_trust_record, decode_trust_record,
}

trim_end-keeps_first :
    (is_whitespace : ℕ → Bool) (c : ℕ) (cs : List ℕ)
    → is_whitespace c ≡ false
    → trim_start is_whitespace (trim_end is_whitespace (c ∷ cs)) ≡ trim_end is_whitespace (c ∷ cs)
unfolding trim_start trim_end
trim_end-keeps_first is_whitespace c cs h = ground (arith, h)

trim_end_twice :
    (is_whitespace : ℕ → Bool) (text : List ℕ)
    → trim_end is_whitespace (trim_end is_whitespace text) ≡ trim_end is_whitespace text
unfolding trim_end
trim_end_twice is_whitespace [] = refl
trim_end_twice is_whitespace (c ∷ cs) = ground (arith, trim_end_twice is_whitespace cs)

-- A text without white space around it has none to lose.
pub trim_twice :
    (is_whitespace : ℕ → Bool) (text : List ℕ)
    → trim is_whitespace (trim is_whitespace text) ≡ trim is_whitespace text
unfolding trim trim_start
trim_twice is_whitespace [] = unfold trim_end in refl
trim_twice is_whitespace (c ∷ cs) = elim (Bool-cases (is_whitespace c)) [
  | inl space ↦ rw space (trim_twice is_whitespace cs)
  | inr letter ↦ rw letter (
      ap (trim_end is_whitespace) (trim_end-keeps_first is_whitespace c cs letter)
      ∙ trim_end_twice is_whitespace (c ∷ cs))
]

-- An identity that is stored is read back.
pub decode-encode_identity_bundle :
    (certificate key encoded : List ℕ)
    → encode_identity_bundle certificate key ≡ ok encoded
    → decode_identity_bundle encoded ≡ ok (certificate, key)
unfolding encode_identity_bundle decode_identity_bundle array_at_io
decode-encode_identity_bundle certificate key encoded e =
    let (_, valid, e₁) = >>=-eq-ok (validate_certificate certificate) _ e in
    let (_, valid_key, e₂) = >>=-eq-ok (validate_private_key key) _ e₁ in
    let whole : List ℕ = concat (bundle_fields certificate key) in
    let sent : whole ≡ encoded = ground arith in
    let small : length certificate < 256 ^ 4 = ground arith in
    let small_key : length key < 256 ^ 4 = ground arith in
    let l_c = length-to_le_bytes 4 (length certificate) in
    let l_k = length-to_le_bytes 4 (length key) in
    let field = field_at-concat_end (bundle_fields certificate key) in
    let size : length whole ≡ 16 + length certificate + length key =
      simp length-append (omega (arith, l_c, l_k)) in
    let bound : leb 16 (length whole) ≡ true = ground (arith, size) in
    let exact : (length whole == 16 + length certificate + length key) ≡ true =
      ground (arith, size) in
    let last : drop (16 + length certificate) whole ≡ key =
      field_to_end (length key) (16 + length certificate) whole
        (field 4 (length key) (16 + length certificate) key refl (omega (arith, l_c, l_k)) refl)
        size in
    rw
      (
        ← sent,
        bound,
        bytes_eq_refl identity_magic,
        field 1 4 8 (to_le_bytes 4 (length certificate)) refl refl l_c,
        field 2 4 12 (to_le_bytes 4 (length key)) refl (omega (arith, l_c)) l_k,
        from-to_le_bytes 4 (length certificate) small,
        from-to_le_bytes 4 (length key) small_key,
        exact,
        field 3 (length certificate) 16 certificate refl (omega (arith, l_c, l_k)) refl,
        last,
        valid,
        valid_key,
      )
      refl

module _ (utf8 : Utf8) (is_whitespace : ℕ → Bool) (fingerprint_of : List ℕ → List ℕ) where
  validate_label_ok :
      (text label : List ℕ)
      → validate_label utf8 is_whitespace fingerprint_of text ≡ ok label
      → (label ≡ trim is_whitespace text)
        × (validate_label utf8 is_whitespace fingerprint_of label ≡ ok label)
  unfolding validate_label
  validate_label_ok text label e =
      let same : label ≡ trim is_whitespace text = ground arith in
      let still : trim is_whitespace label ≡ label =
        (ap (trim is_whitespace) same ∙ trim_twice is_whitespace text ∙ sym same) in
      (same, ground (arith, still))

  -- A record of a peer that is stored is read back under the fingerprint of its certificate, its label
  -- without the white space around it; under any other fingerprint it is refused.
  pub decode-encode_trust_record :
      (peer : TrustedPeer) (encoded : List ℕ)
      → ((text : List ℕ) → utf8.from_utf8 (utf8.as_bytes text) ≡ some text)
      → encode_trust_record utf8 is_whitespace fingerprint_of peer ≡ ok encoded
      → (expected : List ℕ)
      → decode_trust_record utf8 is_whitespace fingerprint_of encoded expected ≡ (
          if bytes_eq (fingerprint_of peer.certificate) expected
          then ok (record {
            fingerprint = fingerprint_of peer.certificate;
            label = trim is_whitespace peer.label;
            certificate = peer.certificate;
          })
          else err invalid_data)
  unfolding encode_trust_record decode_trust_record array_at_io
  decode-encode_trust_record peer encoded text_law e expected =
      let certificate = peer.certificate in
      let (_, valid, e₁) = >>=-eq-ok (validate_certificate certificate) _ e in
      let (label, trimmed, e₂) =
        >>=-eq-ok (validate_label utf8 is_whitespace fingerprint_of peer.label) _ e₁ in
      let (same, again) = validate_label_ok peer.label label trimmed in
      let bytes = utf8.as_bytes label in
      let whole : List ℕ =
        concat (record_fields utf8 is_whitespace fingerprint_of certificate label) in
      let sent : whole ≡ encoded = ground arith in
      let small : length certificate < 256 ^ 4 = ground arith in
      let small_label : length bytes < 256 ^ 2 = ground arith in
      let l_c = length-to_le_bytes 4 (length certificate) in
      let l_l = length-to_le_bytes 2 (length bytes) in
      let field =
        field_at-concat_end (record_fields utf8 is_whitespace fingerprint_of certificate label) in
      let size : length whole ≡ 14 + length certificate + length bytes =
        simp length-append (omega (arith, l_c, l_l)) in
      let bound : leb 14 (length whole) ≡ true = ground (arith, size) in
      let exact : (length whole == 14 + length certificate + length bytes) ≡ true =
        ground (arith, size) in
      let last : drop (14 + length certificate) whole ≡ bytes =
        field_to_end (length bytes) (14 + length certificate) whole
          (field 4 (length bytes) (14 + length certificate) bytes refl (omega (arith, l_c, l_l))
            refl)
          size in
      rw
        (
          ← sent,
          bound,
          bytes_eq_refl trust_magic,
          field 1 4 8 (to_le_bytes 4 (length certificate)) refl refl l_c,
          field 2 2 12 (to_le_bytes 2 (length bytes)) refl (omega (arith, l_c)) l_l,
          from-to_le_bytes 4 (length certificate) small,
          from-to_le_bytes 2 (length bytes) small_label,
          exact,
          field 3 (length certificate) 14 certificate refl (omega (arith, l_c, l_l)) refl,
          last,
          valid,
          text_law label,
          again,
          same,
        )
        (elim (Bool-cases (bytes_eq (fingerprint_of certificate) expected)) [
          | inl same_print ↦ rw same_print refl
          | inr other ↦ rw other refl
        ])
