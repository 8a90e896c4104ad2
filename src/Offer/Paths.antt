-- ===== src/Offer/Paths.antt =====
-- The rules for virtual paths: `validate_virtual_path`, `validate_virtual_path_component` and
-- `is_reserved_dos_name` of src/clipboard/data_object.rs. A text is the list of its characters.
use clip_ferry.Common.{
  ℕ, ◌+◌, ◌-◌, Bool, false, List, [], ◌∷◌, ◌++◌, length, map, leb, ltb, ◌==◌, if◌then◌else◌, ◌&&◌,
  ◌||◌, not, bytes_eq,
}
use clip_ferry.Common.Result.{ok, guard, ◌>>◌}
use clip_ferry.Clipboard.Source.{ComResult, dv_e_formatetc}

-- `any`, the test behind `contains` and `chars().any`.
unfoldable pub any : {A : Type 0} → (A → Bool) → List A → Bool
any p [] = false
any p (x ∷ xs) = p x || any p xs

-- One more character in front of the first piece.
abbrev pub grow : ℕ → List (List ℕ) → List (List ℕ)
grow c [] = (c ∷ []) ∷ []
grow c (w ∷ ws) = (c ∷ w) ∷ ws

-- `split(separator)`
unfoldable pub split : ℕ → List ℕ → List (List ℕ)
split separator [] = [] ∷ []
split separator (c ∷ cs) =
    let rest = split separator cs in if c == separator then [] ∷ rest else grow c rest

-- `join(separator)`
unfoldable pub join : ℕ → List (List ℕ) → List ℕ
join separator [] = []
join separator (w ∷ []) = w
join separator (w ∷ v ∷ ws) = w ++ (separator ∷ join separator (v ∷ ws))

-- `encode_utf16().count()`
unfoldable pub utf16_units : List ℕ → ℕ
utf16_units [] = 0
utf16_units (c ∷ cs) = (if ltb c 65536 then 1 else 2) + utf16_units cs

-- `char::is_control`: the Unicode category Cc.
unfoldable pub is_control_char : ℕ → Bool
is_control_char c = ltb c 32 || (leb 127 c && ltb c 160)

unfoldable pub to_ascii_upper : ℕ → ℕ
to_ascii_upper c = if leb b'a' c && leb c b'z' then c - 32 else c

abbrev pub backslash : ℕ
backslash = 92

-- `< > : " / \ | ? *`
unfoldable pub is_forbidden_char : ℕ → Bool
is_forbidden_char c = any (λ f. c == f) (60 ∷ 62 ∷ 58 ∷ 34 ∷ 47 ∷ backslash ∷ 124 ∷ 63 ∷ 42 ∷ [])

unfoldable pub ends_with_space_or_dot : List ℕ → Bool
ends_with_space_or_dot [] = false
ends_with_space_or_dot (c ∷ []) = (c == b' ') || (c == b'.')
ends_with_space_or_dot (c ∷ d ∷ cs) = ends_with_space_or_dot (d ∷ cs)

-- The piece before the first dot.
abbrev pub first_piece : List (List ℕ) → List ℕ
first_piece [] = []
first_piece (w ∷ ws) = w

-- A digit from 1 to 9, or one of the superscripts 1, 2 and 3.
unfoldable pub is_device_number : ℕ → Bool
is_device_number c = (leb b'1' c && leb c b'9') || ((c == 185) || ((c == 178) || (c == 179)))

-- COM or LPT with such a number, in capitals.
unfoldable pub is_port_name : List ℕ → Bool
unfolding is_device_number
is_port_name (a ∷ b ∷ c ∷ n ∷ []) =
    (bytes_eq (a ∷ b ∷ c ∷ []) (b'C' ∷ b'O' ∷ b'M' ∷ [])
      || bytes_eq (a ∷ b ∷ c ∷ []) (b'L' ∷ b'P' ∷ b'T' ∷ []))
    && is_device_number n
is_port_name other = false

unfoldable pub is_reserved_dos_name : List ℕ → Bool
unfolding is_port_name
is_reserved_dos_name name =
    let upper = map to_ascii_upper (first_piece (split b'.' name)) in
    any (bytes_eq upper) (
      (b'C' ∷ b'O' ∷ b'N' ∷ [])
      ∷ (b'P' ∷ b'R' ∷ b'N' ∷ [])
      ∷ (b'A' ∷ b'U' ∷ b'X' ∷ [])
      ∷ (b'N' ∷ b'U' ∷ b'L' ∷ [])
      ∷ (b'C' ∷ b'L' ∷ b'O' ∷ b'C' ∷ b'K' ∷ b'$' ∷ [])
      ∷ [])
    || is_port_name upper

-- The conditions on which a component is refused.
unfoldable pub is_bad_component : List ℕ → Bool
is_bad_component name =
    (length name == 0)
    || (bytes_eq name (b'.' ∷ [])
        || (bytes_eq name (b'.' ∷ b'.' ∷ [])
            || (any is_forbidden_char name
                || (ends_with_space_or_dot name
                    || (any is_control_char name || is_reserved_dos_name name)))))

unfoldable pub validate_virtual_path_component : List ℕ → ComResult (Unit {0})
validate_virtual_path_component name = do
  guard (not (is_bad_component name)) dv_e_formatetc
  guard (ltb (utf16_units name) 260) dv_e_formatetc

unfoldable pub validate_components : List (List ℕ) → ComResult (Unit {0})
validate_components [] = ok tt
validate_components (w ∷ ws) = do validate_virtual_path_component w; validate_components ws

unfoldable pub validate_virtual_path : List ℕ → ComResult (Unit {0})
validate_virtual_path name = do
  guard (not ((length name == 0) || (any (λ c. c == b'/') name || leb 260 (utf16_units name))))
      dv_e_formatetc
  validate_components (split backslash name)
