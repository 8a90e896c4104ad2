-- ===== src/Store/Settings/RoundTrip.antt =====
-- The settings that are saved are loaded again.
use clip_ferry.Common.{
  ℕ, ◌/◌, ◌%◌, ◌≡◌, ◌∙◌, refl, ap, Bool, false, some, List, [], ◌∷◌, ◌++◌, length, ◌==◌, ◌||◌,
  bytes_eq, bytes, arith, All,
}
use clip_ferry.Common.Bytes.{IsByte}
use clip_ferry.Common.Map.{lookup, insert}
use clip_ferry.Common.Result.{ok}
use clip_ferry.Offer.Paths.{any, join}
use clip_ferry.Store.Fingerprint.{upper_hex, hex_byte, fingerprint_text, from_str-fingerprint_text}
use clip_ferry.Store.Settings.{
  SocketAddr, AddrText, AppSettings, validate_private_endpoint, settings_header, newline,
  carriage_return, lines, unlines, split_once, is_known_key, read_field, read_fields, required,
  read_switch, after_header, switch_text, parse_endpoint, setting_lines, encode_settings,
  settings_of, decode_settings,
}

abbrev pub ends_line : ℕ → Bool
ends_line c = (c == newline) || (c == carriage_return)

abbrev pub OneLine : List ℕ → Type 0
OneLine text = any ends_line text ≡ false

lines-line :
    (line rest : List ℕ) → OneLine line → lines (line ++ (newline ∷ rest)) ≡ line ∷ lines rest
unfolding lines any
lines-line [] rest v = refl
lines-line (c ∷ cs) rest v =
    let here : ends_line c ≡ false = ground arith in
    let no_newline : (c == newline) ≡ false = ground arith in
    let no_return : (c == carriage_return) ≡ false = ground arith in
    let behind : OneLine cs = ground arith in
    rw (no_newline, no_return, lines-line cs rest behind) refl

lines-unlines : (ls : List (List ℕ)) → All OneLine ls → lines (unlines ls) ≡ ls
unfolding lines
lines-unlines [] v = refl
lines-unlines (l ∷ ls) v =
    lines-line l (unlines ls) v.0 ∙ ap (λ rest. l ∷ rest) (lines-unlines ls v.1)

upper_hex-OneLine : (n : ℕ) → ends_line (upper_hex n) ≡ false
unfolding upper_hex
upper_hex-OneLine n = ground arith

fingerprint_text-OneLine : (bs : List ℕ) → OneLine (fingerprint_text bs)
unfolding fingerprint_text any join hex_byte
fingerprint_text-OneLine [] = refl
fingerprint_text-OneLine (b ∷ []) = rw (upper_hex-OneLine (b / 16), upper_hex-OneLine (b % 16)) refl
fingerprint_text-OneLine (b ∷ c ∷ bs) =
    rw (upper_hex-OneLine (b / 16), upper_hex-OneLine (b % 16)) (fingerprint_text-OneLine (c ∷ bs))

switch_text-OneLine : (on : Bool) → OneLine (switch_text on)
unfolding switch_text any
switch_text-OneLine on = ground arith

read_switch-switch_text : (on : Bool) → read_switch (switch_text on) ≡ ok on
unfolding read_switch switch_text bytes_eq
read_switch-switch_text on = ground arith

module _ (addrs : AddrText) where
  -- An endpoint that the program allows, and that the library writes on one line and reads back.
  pub record Endpoint (a : SocketAddr) : Type 0 where
    pub allowed : validate_private_endpoint a ≡ ok tt
    pub one_line : OneLine (addrs.show_addr a)
    pub read_back : addrs.parse_addr (addrs.show_addr a) ≡ some a

  parse_endpoint-show :
      (a : SocketAddr) → Endpoint a → parse_endpoint addrs (addrs.show_addr a) ≡ ok a
  unfolding parse_endpoint
  parse_endpoint-show a v = rw (v.read_back, v.allowed) refl

  one_lines :
      (s : AppSettings)
      → Endpoint s.local_endpoint
      → Endpoint s.peer_endpoint
      → All OneLine (settings_header ∷ setting_lines addrs s)
  unfolding any
  one_lines s u v = (
    refl,
    (
      u.one_line,
      (
        fingerprint_text-OneLine s.active_peer,
        (v.one_line, (switch_text-OneLine s.auto_receive, tt)),
      ),
    ),
  )

  -- Settings with allowed endpoints and a fingerprint of 32 bytes are loaded just as they were saved.
  pub decode-encode_settings :
      (s : AppSettings)
      → Endpoint s.local_endpoint
      → Endpoint s.peer_endpoint
      → length s.active_peer ≡ 32
      → All IsByte s.active_peer
      → decode_settings addrs (encode_settings addrs s) ≡ ok s
  unfolding decode_settings encode_settings after_header bytes_eq read_fields read_field split_once
      is_known_key lookup insert settings_of required
  decode-encode_settings s u v full is_bytes =
      rw
        (
          lines-unlines (settings_header ∷ setting_lines addrs s) (one_lines s u v),
          parse_endpoint-show s.local_endpoint u,
          from_str-fingerprint_text s.active_peer full is_bytes,
          parse_endpoint-show s.peer_endpoint v,
          read_switch-switch_text s.auto_receive,
        )
        refl
