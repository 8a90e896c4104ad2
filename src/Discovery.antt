-- ===== src/Discovery.antt =====
-- The packets by which devices find each other: `Packet` of src/discovery.rs.
pub mod RoundTrip
use clip_ferry.Common.{
  ℕ, ◌+◌, ◌<◌, ◌≤◌, Bool, true, List, [], ◌∷◌, length, drop, get_elem?, leb, ltb, ◌==◌, ◌&&◌, ◌||◌,
  not, bytes_eq, ◌≡◌,
}
use clip_ferry.Common.Bytes.{concat}
use clip_ferry.Common.Result.{Result, IoResult, ok, guard, ok_or, ◌>>=◌, ◌>>◌, invalid_data}
use clip_ferry.Wire.Frame.{array_at_io}
use clip_ferry.Pairing.Hello.{to_le_bytes, from_le_bytes}

-- b"CFDISC01"
abbrev pub discovery_magic : List ℕ
discovery_magic = b'C' ∷ b'F' ∷ b'D' ∷ b'I' ∷ b'S' ∷ b'C' ∷ b'0' ∷ b'1' ∷ []

abbrev pub pairing_port : ℕ
pairing_port = 45232

abbrev pub service_port : ℕ
service_port = 45233

abbrev pub header_length : ℕ
header_length = 48

abbrev pub label_limit : ℕ
label_limit = 63

pub record Packet : Type 0 where
  pub kind : ℕ
  pub fingerprint : List ℕ
  pub service : ℕ
  pub pairing : ℕ
  pub label : List ℕ

-- ANNOUNCEMENT or RESPONSE.
unfoldable pub is_kind : ℕ → Bool
is_kind kind = (kind == 1) || (kind == 2)

abbrev pub packet_fields : Packet → List (List ℕ)
packet_fields p =
    discovery_magic
    ∷ to_le_bytes 2 1
    ∷ (p.kind ∷ [])
    ∷ p.fingerprint
    ∷ to_le_bytes 2 p.service
    ∷ to_le_bytes 2 p.pairing
    ∷ (length p.label ∷ [])
    ∷ p.label
    ∷ []

-- `Packet::encode`
unfoldable pub encode_packet : Packet → IoResult (List ℕ)
encode_packet p = do
  guard (is_kind p.kind && ((p.service == service_port) && (p.pairing == pairing_port)))
      invalid_data
  guard (not (length p.label == 0) && leb (length p.label) label_limit) invalid_data
  guard (ltb (length p.label) 256) invalid_data
  ok (concat (packet_fields p))

-- `Packet::decode`. `valid_label` says whether bytes are UTF-8 without control characters, which
-- the standard library decides.
unfoldable pub decode_packet : (List ℕ → Bool) → List ℕ → IoResult Packet
unfolding array_at_io
decode_packet valid_label encoded = do
  guard (leb header_length (length encoded) && leb (length encoded) (header_length + label_limit))
      invalid_data
  magic ← array_at_io 8 encoded 0
  guard (bytes_eq magic discovery_magic) invalid_data
  version ← array_at_io 2 encoded 8
  guard (from_le_bytes version == 1) invalid_data
  kind ← ok_or (get_elem? encoded 10) invalid_data
  guard (is_kind kind) invalid_data
  fingerprint ← array_at_io 32 encoded 11
  service ← array_at_io 2 encoded 43
  pairing ← array_at_io 2 encoded 45
  guard ((from_le_bytes service == service_port) && (from_le_bytes pairing == pairing_port))
      invalid_data
  label_length ← ok_or (get_elem? encoded 47) invalid_data
  guard
      (not (label_length == 0)
        && (leb label_length label_limit && (length encoded == header_length + label_length)))
      invalid_data
  guard (valid_label (drop header_length encoded)) invalid_data
  ok (record {
    kind = kind;
    fingerprint = fingerprint;
    service = from_le_bytes service;
    pairing = from_le_bytes pairing;
    label = drop header_length encoded;
  })
