-- ===== src/Store/Settings.antt =====
-- The settings' text: `AppSettings::encode`, `decode`, `required`, `parse_endpoint` and
-- `validate_private_endpoint` of src/app_settings.rs. How a socket address is written and read, which the
-- standard library defines, is an argument.
pub mod RoundTrip
use clip_ferry.Common.{
  ℕ, ◌+◌, ◌*◌, Bool, true, false, Option, none, some, List, [], ◌∷◌, ◌++◌, length, leb, ltb, ◌==◌,
  ◌&&◌, ◌||◌, not, bytes_eq, bytes, if◌then◌else◌, ◌/◌,
}
use clip_ferry.Common.Map.{lookup, insert}
use clip_ferry.Common.Result.{IoResult, ok, err, ok_or, guard, ◌>>=◌, ◌>>◌, invalid_data}
use clip_ferry.Offer.Paths.{grow}
use clip_ferry.Store.Fingerprint.{fingerprint_text, fingerprint_from_str}

-- The parts of an address: four bytes, or eight numbers of 16 bits.
pub data IpAddr : Type 0 where
  v4 : List ℕ → IpAddr
  v6 : List ℕ → IpAddr

pub record SocketAddr : Type 0 where
  pub ip : IpAddr
  pub port : ℕ

-- `Display` and `FromStr` of `SocketAddr`.
pub record AddrText : Type 0 where
  pub show_addr : SocketAddr → List ℕ
  pub parse_addr : List ℕ → Option SocketAddr

pub record AppSettings : Type 0 where
  pub local_endpoint : SocketAddr
  pub active_peer : List ℕ
  pub peer_endpoint : SocketAddr
  pub auto_receive : Bool

-- 127.0.0.0/8, or ::1.
unfoldable pub is_loopback : IpAddr → Bool
is_loopback (v4 (a ∷ rest)) = a == 127
is_loopback (v6 parts) = bytes_eq parts (0 ∷ 0 ∷ 0 ∷ 0 ∷ 0 ∷ 0 ∷ 0 ∷ 1 ∷ [])
is_loopback other = false

-- 10.0.0.0/8, 172.16.0.0/12, 192.168.0.0/16; fc00::/7.
unfoldable pub is_private : IpAddr → Bool
is_private (v4 (a ∷ b ∷ rest)) =
    (a == 10) || (((a == 172) && (leb 16 b && leb b 31)) || ((a == 192) && (b == 168)))
is_private (v6 (part ∷ rest)) = part / 512 == 126
is_private other = false

-- No port zero, and an address of this machine or of a private network.
unfoldable pub validate_private_endpoint : SocketAddr → IoResult (Unit {0})
validate_private_endpoint endpoint = do
  guard (not (endpoint.port == 0)) invalid_data
  guard (is_loopback endpoint.ip || is_private endpoint.ip) invalid_data

-- "ClipFerrySettingsV1"
abbrev pub settings_header : List ℕ
settings_header =
    b'C' ∷ b'l' ∷ b'i' ∷ b'p' ∷ b'F' ∷ b'e' ∷ b'r' ∷ b'r' ∷ b'y' ∷ b'S' ∷ b'e' ∷ b't' ∷ b't' ∷ b'i'
    ∷ b'n' ∷ b'g' ∷ b's' ∷ b'V' ∷ b'1' ∷ []

-- "_endpoint"
abbrev endpoint_suffix : List ℕ
endpoint_suffix = b'_' ∷ b'e' ∷ b'n' ∷ b'd' ∷ b'p' ∷ b'o' ∷ b'i' ∷ b'n' ∷ b't' ∷ []

abbrev pub local_endpoint_key : List ℕ
local_endpoint_key = b'l' ∷ b'o' ∷ b'c' ∷ b'a' ∷ b'l' ∷ endpoint_suffix

abbrev pub active_peer_key : List ℕ
active_peer_key = b'a' ∷ b'c' ∷ b't' ∷ b'i' ∷ b'v' ∷ b'e' ∷ b'_' ∷ b'p' ∷ b'e' ∷ b'e' ∷ b'r' ∷ []

abbrev pub peer_endpoint_key : List ℕ
peer_endpoint_key = b'p' ∷ b'e' ∷ b'e' ∷ b'r' ∷ endpoint_suffix

abbrev pub auto_receive_key : List ℕ
auto_receive_key =
    b'a' ∷ b'u' ∷ b't' ∷ b'o' ∷ b'_' ∷ b'r' ∷ b'e' ∷ b'c' ∷ b'e' ∷ b'i' ∷ b'v' ∷ b'e' ∷ []

abbrev pub newline : ℕ
newline = 10

abbrev pub carriage_return : ℕ
carriage_return = 13

-- Whether a line ends here.
abbrev pub at_newline : List ℕ → Bool
at_newline [] = false
at_newline (c ∷ cs) = c == newline

-- `str::lines`: the end of a line is a newline, or a carriage return and a newline.
unfoldable pub lines : List ℕ → List (List ℕ)
lines [] = []
lines (c ∷ cs) =
    let rest = lines cs in
    if c == newline
    then [] ∷ rest
    else if (c == carriage_return) && at_newline cs
    then rest
    else grow c rest

-- A character in front of the first half.
abbrev pub in_front : ℕ → Option (List ℕ × List ℕ) → Option (List ℕ × List ℕ)
in_front c none = none
in_front c (some (before, behind)) = some (c ∷ before, behind)

-- `split_once('=')`
unfoldable pub split_once : List ℕ → Option (List ℕ × List ℕ)
split_once [] = none
split_once (c ∷ cs) =
    let rest = split_once cs in if c == b'=' then some ([], cs) else in_front c rest

unfoldable pub is_known_key : List ℕ → Bool
is_known_key key =
    bytes_eq key local_endpoint_key
    || (bytes_eq key active_peer_key
        || (bytes_eq key peer_endpoint_key || bytes_eq key auto_receive_key))

abbrev pub is_absent : Option (List ℕ) → Bool
is_absent none = true
is_absent (some value) = false

-- One line that is not empty.
unfoldable pub read_field : List ℕ → List (List ℕ × List ℕ) → IoResult (List (List ℕ × List ℕ))
read_field line fields = do
  (key, value) ← ok_or (split_once line) invalid_data
  guard (is_known_key key) invalid_data
  guard (is_absent (lookup key fields)) invalid_data
  ok (insert key value fields)

unfoldable pub read_fields :
    List (List ℕ) → List (List ℕ × List ℕ) → IoResult (List (List ℕ × List ℕ))
read_fields [] fields = ok fields
read_fields ([] ∷ rest) fields = read_fields rest fields
read_fields ((c ∷ cs) ∷ rest) fields = read_field (c ∷ cs) fields >>= read_fields rest

unfoldable pub required : List (List ℕ × List ℕ) → List ℕ → IoResult (List ℕ)
required fields key = ok_or (lookup key fields) invalid_data

unfoldable pub read_switch : List ℕ → IoResult Bool
read_switch value =
    if bytes_eq value (b'0' ∷ [])
    then ok false
    else if bytes_eq value (b'1' ∷ [])
    then ok true
    else err invalid_data

unfoldable pub after_header : List (List ℕ) → IoResult (List (List ℕ))
after_header [] = err invalid_data
after_header (line ∷ rest) = if bytes_eq line settings_header then ok rest else err invalid_data

-- `u8::from(self.auto_receive)`
unfoldable pub switch_text : Bool → List ℕ
switch_text on = if on then b'1' ∷ [] else b'0' ∷ []

-- Each line with its end.
abbrev pub unlines : List (List ℕ) → List ℕ
unlines [] = []
unlines (line ∷ rest) = line ++ (newline ∷ unlines rest)

module _ (addrs : AddrText) where
  unfoldable pub parse_endpoint : List ℕ → IoResult SocketAddr
  parse_endpoint value = do
    endpoint ← ok_or (addrs.parse_addr value) invalid_data
    validate_private_endpoint endpoint
    ok endpoint

  -- The lines of the text, behind the header.
  abbrev pub setting_lines : AppSettings → List (List ℕ)
  setting_lines s =
      (local_endpoint_key ++ (b'=' ∷ addrs.show_addr s.local_endpoint))
      ∷ (active_peer_key ++ (b'=' ∷ fingerprint_text s.active_peer))
      ∷ (peer_endpoint_key ++ (b'=' ∷ addrs.show_addr s.peer_endpoint))
      ∷ (auto_receive_key ++ (b'=' ∷ switch_text s.auto_receive))
      ∷ []

  unfoldable pub encode_settings : AppSettings → List ℕ
  encode_settings s = unlines (settings_header ∷ setting_lines s)

  -- The settings in the fields of the text.
  unfoldable pub settings_of : List (List ℕ × List ℕ) → IoResult AppSettings
  settings_of fields = do
    guard (length fields == 4) invalid_data
    local_text ← required fields local_endpoint_key
    local_endpoint ← parse_endpoint local_text
    peer_text ← required fields active_peer_key
    active_peer ← fingerprint_from_str peer_text
    endpoint_text ← required fields peer_endpoint_key
    peer_endpoint ← parse_endpoint endpoint_text
    switch ← required fields auto_receive_key
    auto_receive ← read_switch switch
    ok (record {
      local_endpoint = local_endpoint;
      active_peer = active_peer;
      peer_endpoint = peer_endpoint;
      auto_receive = auto_receive;
    })

  unfoldable pub decode_settings : List ℕ → IoResult AppSettings
  decode_settings text = do
    rest ← after_header (lines text)
    fields ← read_fields rest []
    settings_of fields
