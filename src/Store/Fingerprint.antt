-- ===== src/Store/Fingerprint.antt =====
-- The text of a certificate's fingerprint: `Display` and `FromStr` of `CertificateFingerprint` in
-- src/security.rs. A fingerprint is the list of its 32 bytes; a text is the list of its characters.
use clip_ferry.Common.{
  ℕ, ◌+◌, ◌-◌, ◌*◌, ◌/◌, ◌%◌, ◌<◌, ◌≡◌, refl, ap, Bool, true, false, List, [], ◌∷◌, ◌++◌, length,
  map, leb, ltb, ◌==◌, ◌&&◌, ◌||◌, if◌then◌else◌, arith, All,
}
use clip_ferry.Common.Bytes.{IsByte}
use clip_ferry.Common.Result.{IoResult, ok, guard, ◌>>◌, invalid_data}
use clip_ferry.Offer.Paths.{join}

-- A digit of `{:02X}`.
unfoldable pub upper_hex : ℕ → ℕ
upper_hex n = if ltb n 10 then b'0' + n else b'A' + (n - 10)

unfoldable pub hex_byte : ℕ → List ℕ
hex_byte byte = upper_hex (byte / 16) ∷ upper_hex (byte % 16) ∷ []

unfoldable pub fingerprint_text : List ℕ → List ℕ
fingerprint_text fingerprint = join b':' (map hex_byte fingerprint)

-- `filter(|character| *character != ':')`
unfoldable pub without_colons : List ℕ → List ℕ
without_colons [] = []
without_colons (c ∷ cs) = let rest = without_colons cs in if c == b':' then rest else c ∷ rest

unfoldable pub is_hex_digit : ℕ → Bool
is_hex_digit c =
    (leb b'0' c && leb c b'9') || ((leb b'a' c && leb c b'f') || (leb b'A' c && leb c b'F'))

unfoldable pub all_hex : List ℕ → Bool
unfolding is_hex_digit
all_hex [] = true
all_hex (c ∷ cs) = is_hex_digit c && all_hex cs

-- The value of a digit that `is_hex_digit` allows.
unfoldable pub hex_digit : ℕ → ℕ
hex_digit c = if leb c b'9' then c - b'0' else (if leb b'a' c then c - b'a' + 10 else c - b'A' + 10)

-- Two digits for each byte.
unfoldable pub hex_bytes : List ℕ → List ℕ
hex_bytes (a ∷ b ∷ rest) = (hex_digit a * 16 + hex_digit b) ∷ hex_bytes rest
hex_bytes other = []

-- The length is compared with that of the text in UTF-8; a character that is not ASCII has no hex
-- digit in it.
unfoldable pub fingerprint_from_str : List ℕ → IoResult (List ℕ)
fingerprint_from_str value = do
  let compact = without_colons value
  guard ((length compact == 64) && all_hex compact) invalid_data
  ok (hex_bytes compact)

-- The digits of a fingerprint, without colons.
unfoldable digits : List ℕ → List ℕ
digits [] = []
digits (b ∷ bs) = hex_byte b ++ digits bs

upper_hex-IsHex :
    (n : ℕ)
    → n < 16
    → (is_hex_digit (upper_hex n) ≡ true)
      × (hex_digit (upper_hex n) ≡ n)
      × ((upper_hex n == b':') ≡ false)
unfolding upper_hex is_hex_digit hex_digit
upper_hex-IsHex n h = (ground arith, ground arith, ground arith)

without_colons-text :
    (bs : List ℕ) → All IsByte bs → without_colons (fingerprint_text bs) ≡ digits bs
unfolding fingerprint_text without_colons digits hex_byte join
without_colons-text [] v = refl
without_colons-text (b ∷ []) v =
    let (_, _, high) = upper_hex-IsHex (b / 16) (omega (arith, v.0)) in
    let (_, _, low) = upper_hex-IsHex (b % 16) (omega arith) in rw (high, low) refl
without_colons-text (b ∷ c ∷ bs) v =
    let (_, _, high) = upper_hex-IsHex (b / 16) (omega (arith, v.0)) in
    let (_, _, low) = upper_hex-IsHex (b % 16) (omega arith) in
    rw (high, low) (ap (λ rest. hex_byte b ++ rest) (without_colons-text (c ∷ bs) v.1))

length-digits : (bs : List ℕ) → length (digits bs) ≡ 2 * length bs
unfolding digits hex_byte
length-digits [] = refl
length-digits (b ∷ bs) = omega (arith, length-digits bs)

all_hex-digits : (bs : List ℕ) → All IsByte bs → all_hex (digits bs) ≡ true
unfolding digits hex_byte all_hex
all_hex-digits [] v = refl
all_hex-digits (b ∷ bs) v =
    let (high, _, _) = upper_hex-IsHex (b / 16) (omega (arith, v.0)) in
    let (low, _, _) = upper_hex-IsHex (b % 16) (omega arith) in
    rw (high, low) (all_hex-digits bs v.1)

hex_bytes-digits : (bs : List ℕ) → All IsByte bs → hex_bytes (digits bs) ≡ bs
unfolding digits hex_byte hex_bytes
hex_bytes-digits [] v = refl
hex_bytes-digits (b ∷ bs) v =
    let (_, high, _) = upper_hex-IsHex (b / 16) (omega (arith, v.0)) in
    let (_, low, _) = upper_hex-IsHex (b % 16) (omega arith) in
    let whole : b / 16 * 16 + b % 16 ≡ b = omega arith in
    rw (high, low, whole, hex_bytes-digits bs v.1) refl

-- A fingerprint of 32 bytes that is written out is read back.
pub from_str-fingerprint_text :
    (fingerprint : List ℕ)
    → length fingerprint ≡ 32
    → All IsByte fingerprint
    → fingerprint_from_str (fingerprint_text fingerprint) ≡ ok fingerprint
unfolding fingerprint_from_str
from_str-fingerprint_text fingerprint h v =
    let full : (length (digits fingerprint) == 64) ≡ true =
      ground (arith, length-digits fingerprint) in
    rw
      (
        without_colons-text fingerprint v,
        full,
        all_hex-digits fingerprint v,
        hex_bytes-digits fingerprint v,
      )
      refl
