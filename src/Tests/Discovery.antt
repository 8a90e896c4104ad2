-- ===== src/Tests/Discovery.antt =====
-- The packets of src/discovery.rs at concrete inputs.
use clip_ferry.Common.{◌≡◌, refl, true, [], ◌∷◌, ◌++◌}
use clip_ferry.Common.Bytes.{concat}
use clip_ferry.Common.Result.{ok}
use clip_ferry.Discovery.{Packet, is_kind, packet_fields, encode_packet, decode_packet}
use clip_ferry.Discovery.RoundTrip.{decode-encode_packet}
use clip_ferry.Tests.Wire.{sixteen}

abbrev packet_1 : Packet
packet_1 = record {
  kind = 1;
  fingerprint = sixteen 1 ++ sixteen 2;
  service = 45233;
  pairing = 45232;
  label = 80 ∷ 67 ∷ [];
}

encode_packet_1 : encode_packet packet_1 ≡ ok (concat (packet_fields packet_1))
unfolding encode_packet is_kind
encode_packet_1 = refl

decode-encode_packet_example :
    decode_packet (λ _. true) (concat (packet_fields packet_1)) ≡ ok packet_1
decode-encode_packet_example =
    decode-encode_packet (λ _. true) packet_1 (concat (packet_fields packet_1)) refl refl
      encode_packet_1
