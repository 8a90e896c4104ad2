-- ===== src/Discovery/RoundTrip.antt =====
-- A packet that is sent is read back.
use clip_ferry.Common.{
  ℕ, ◌+◌, ◌≡◌, ◌≤◌, ◌<◌, refl, Bool, true, List, [], ◌∷◌, length, drop, leb, ◌==◌, ◌&&◌, not,
  bytes_eq_refl, arith, length-append,
}
use clip_ferry.Common.Fields.{byte_at, field_to_end}
use clip_ferry.Common.Bytes.{concat, field_at-concat_end}
use clip_ferry.Common.Result.{ok}
use clip_ferry.Wire.Frame.{array_at_io}
use clip_ferry.Pairing.Hello.{to_le_bytes, length-to_le_bytes, from-to_le_bytes}
use clip_ferry.Discovery.{
  discovery_magic, service_port, pairing_port, Packet, is_kind, packet_fields, encode_packet,
  decode_packet,
}

-- A device reads the packet of another one back, if the fingerprint is an array of 32 bytes and the
-- label is text without control characters.
pub decode-encode_packet :
    (valid_label : List ℕ → Bool) (p : Packet) (encoded : List ℕ)
    → length p.fingerprint ≡ 32
    → valid_label p.label ≡ true
    → encode_packet p ≡ ok encoded
    → decode_packet valid_label encoded ≡ ok p
unfolding encode_packet decode_packet array_at_io
decode-encode_packet valid_label p encoded f valid e =
    let whole : List ℕ = concat (packet_fields p) in
    let sent : whole ≡ encoded = ground arith in
    let ports : (p.service ≡ service_port) × (p.pairing ≡ pairing_port) =
      (ground arith, ground arith) in
    let kind : is_kind p.kind ≡ true = ground arith in
    let some_label : 0 < length p.label = ground arith in
    let short_label : length p.label ≤ 63 = ground arith in
    let two = length-to_le_bytes 2 1 in
    let two_s = length-to_le_bytes 2 p.service in
    let two_p = length-to_le_bytes 2 p.pairing in
    let field = field_at-concat_end (packet_fields p) in
    let size : length whole ≡ 48 + length p.label =
      simp length-append (omega (arith, two, two_s, two_p, f)) in
    let label : drop 48 whole ≡ p.label =
      field_to_end (length p.label) 48 whole
        (field 7 (length p.label) 48 p.label refl (omega (arith, two, f, two_s, two_p)) refl)
        size in
    let bounds : (leb 48 (length whole) && leb (length whole) 111) ≡ true = ground (arith, size) in
    let exact : (not (length p.label == 0)
          && (leb (length p.label) 63 && (length whole == 48 + length p.label)))
        ≡ true =
      ground (arith, size) in
    let both : ((p.service == service_port) && (p.pairing == pairing_port)) ≡ true = ground arith in
    rw
      (
        ← sent,
        bounds,
        field 0 8 0 discovery_magic refl refl refl,
        bytes_eq_refl discovery_magic,
        field 1 2 8 (to_le_bytes 2 1) refl (omega arith) two,
        from-to_le_bytes 2 1 (omega arith),
        byte_at 10 p.kind whole (field 2 1 10 (p.kind ∷ []) refl (omega (arith, two)) refl),
        kind,
        field 3 32 11 p.fingerprint refl (omega (arith, two)) f,
        field 4 2 43 (to_le_bytes 2 p.service) refl (omega (arith, two, f)) two_s,
        field 5 2 45 (to_le_bytes 2 p.pairing) refl (omega (arith, two, f, two_s)) two_p,
        from-to_le_bytes 2 p.service (omega (arith, ports.0)),
        from-to_le_bytes 2 p.pairing (omega (arith, ports.1)),
        both,
        byte_at 47 (length p.label) whole
            (field 6 1 47 (length p.label ∷ []) refl (omega (arith, two, f, two_s, two_p)) refl),
        exact,
        label,
        valid,
      )
      refl
