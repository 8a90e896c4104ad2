-- ===== src/Tests/Store.antt =====
-- Files of the device store at concrete inputs.
use clip_ferry.Common.{
  ◌<◌, ◌≤◌, ℕ, ◌+◌, ◌-◌, map, true, none, Option, ◌++◌, All, arith, Bool, ◌≡◌, refl, some, List, [],
  ◌∷◌, length, ◌==◌, bytes_eq, if◌then◌else◌,
}
use clip_ferry.Common.Result.{IoResult, ok, err, invalid_data}
use clip_ferry.Common.Bytes.{to_be_bytes, field_at, from_be_bytes, IsByte, concat}
use clip_ferry.Offer.Manifest.{Utf8}
use clip_ferry.Offer.Paths.{any, is_control_char}
use clip_ferry.Store.{
  TrustedPeer, validate_certificate, validate_label, trim, trim_start, trim_end, record_fields,
  encode_trust_record, decode_trust_record,
}
use clip_ferry.Store.Settings.{
  IpAddr, v4, v6, SocketAddr, AddrText, AppSettings, is_loopback, is_private,
  validate_private_endpoint, encode_settings, decode_settings,
}
use clip_ferry.Pairing.Hello.{from_le_bytes, to_le_bytes}
use clip_ferry.Store.Peers.{
  InScope, lower_hex, compact_fingerprint, peer_path, read_bounded, load_peer, validate_settings,
  validate_settings_ok,
}
use clip_ferry.Store.Settings.RoundTrip.{Endpoint, decode-encode_settings}
use clip_ferry.Store.RoundTrip.{decode-encode_trust_record}

abbrev ascii_text : Utf8
ascii_text = record { as_bytes = λ s. s; from_utf8 = λ b. some b }

abbrev is_space : ℕ → Bool
is_space c = c == b' '

-- A short stand-in for the fingerprint.
abbrev length_of : List ℕ → List ℕ
length_of bs = length bs ∷ []

abbrev peer_bob : TrustedPeer
peer_bob = record {
  fingerprint = 3 ∷ [];
  label = b' ' ∷ b'b' ∷ b'o' ∷ b'b' ∷ [];
  certificate = 48 ∷ 130 ∷ 1 ∷ [];
}

abbrev encoded_bob : List ℕ
encoded_bob =
    concat
      (record_fields ascii_text is_space length_of (48 ∷ 130 ∷ 1 ∷ []) (b'b' ∷ b'o' ∷ b'b' ∷ []))

encoded_bob_ok : encode_trust_record ascii_text is_space length_of peer_bob ≡ ok encoded_bob
unfolding encode_trust_record validate_certificate validate_label trim trim_start trim_end any
    is_control_char
encoded_bob_ok = refl

decode-encode_trust_record_example :
    decode_trust_record ascii_text is_space length_of encoded_bob (3 ∷ []) ≡ (
      if bytes_eq (length_of peer_bob.certificate) (3 ∷ [])
      then ok (record {
        fingerprint = length_of peer_bob.certificate;
        label = trim is_space peer_bob.label;
        certificate = peer_bob.certificate;
      })
      else err invalid_data)
decode-encode_trust_record_example =
    decode-encode_trust_record ascii_text is_space length_of peer_bob encoded_bob (λ text. refl)
      encoded_bob_ok (3 ∷ [])

-- Texts that have each number of an address, increased by 100.
abbrev shifted : IpAddr → List ℕ
shifted (v4 parts) = 4 ∷ map (λ n. n + 100) parts
shifted (v6 parts) = 6 ∷ map (λ n. n + 100) parts

abbrev unshifted : List ℕ → Option SocketAddr
unshifted (port ∷ kind ∷ parts) =
    let ip = if kind == 4 then v4 (map (λ n. n - 100) parts) else v6 (map (λ n. n - 100) parts) in
    some (record { ip = ip; port = port - 100 })
unshifted other = none

abbrev shifted_text : AddrText
shifted_text = record { show_addr = λ a. (a.port + 100) ∷ shifted a.ip; parse_addr = unshifted }

abbrev lan_endpoint : ℕ → SocketAddr
lan_endpoint host = record { ip = v4 (192 ∷ 168 ∷ 1 ∷ host ∷ []); port = 45233 }

abbrev bytes_8 : List ℕ
bytes_8 = 0 ∷ 1 ∷ 9 ∷ 10 ∷ 127 ∷ 128 ∷ 254 ∷ 255 ∷ []

abbrev lan_settings : AppSettings
lan_settings = record {
  local_endpoint = lan_endpoint 10;
  active_peer = bytes_8 ++ bytes_8 ++ bytes_8 ++ bytes_8;
  peer_endpoint = lan_endpoint 11;
  auto_receive = true;
}

lan_10 : Endpoint shifted_text (lan_endpoint 10)
unfolding validate_private_endpoint is_loopback is_private any
lan_10 = record { allowed = refl; one_line = refl; read_back = refl }

lan_11 : Endpoint shifted_text (lan_endpoint 11)
unfolding validate_private_endpoint is_loopback is_private any
lan_11 = record { allowed = refl; one_line = refl; read_back = refl }

lan_peer-IsByte : All IsByte lan_settings.active_peer
lan_peer-IsByte = ground arith

decode-encode_settings_example :
    decode_settings shifted_text (encode_settings shifted_text lan_settings) ≡ ok lan_settings
decode-encode_settings_example =
    decode-encode_settings shifted_text lan_settings lan_10 lan_11 refl lan_peer-IsByte

-- The address 8.8.8.8 is public, and refused.
public_refused :
    validate_private_endpoint (record { ip = v4 (8 ∷ 8 ∷ 8 ∷ 8 ∷ []); port = 45233 })
    ≡ err invalid_data
unfolding validate_private_endpoint is_loopback is_private
public_refused = refl

-- A directory with the record of one peer.
abbrev bob_files : List ℕ → IoResult (List ℕ)
bob_files name = if bytes_eq name (peer_path (3 ∷ [])) then ok encoded_bob else err invalid_data

abbrev bob_settings : AppSettings
bob_settings = record lan_settings { active_peer = 3 ∷ [] }

bob_settings_valid : validate_settings ascii_text is_space length_of bob_files bob_settings ≡ ok tt
unfolding validate_settings load_peer read_bounded decode_trust_record validate_private_endpoint
    is_loopback is_private validate_certificate validate_label trim trim_start trim_end any
    is_control_char peer_path compact_fingerprint lower_hex bytes_eq field_at from_le_bytes
    from_be_bytes to_be_bytes to_le_bytes
bob_settings_valid = refl

validate_settings_ok_example :
    ((here : Bool) × InScope here (lan_endpoint 10).ip × InScope here (lan_endpoint 11).ip)
    × (0 < 45233)
    × (0 < 45233)
    × ((peer : TrustedPeer) × (encoded : List ℕ) × (bob_files (peer_path (3 ∷ [])) ≡ ok encoded)
        × (0 < length encoded)
        × (length encoded ≤ 73728)
        × (decode_trust_record ascii_text is_space length_of encoded (3 ∷ []) ≡ ok peer)
        × (◌≡◌ {A = List ℕ} peer.fingerprint (3 ∷ [])))
validate_settings_ok_example =
    validate_settings_ok ascii_text is_space length_of bob_files bob_settings bob_settings_valid
