-- ===== src/Pairing/Hello.antt =====
-- `Hello` of src/pairing.rs. Its numbers are in little-endian order.
use mathlib.Core.List.{reverse, reverse-reverse, append_assoc}
use clip_ferry.Common.{
  ℕ, ◌*◌, ◌^◌, ◌≡◌, ◌∙◌, ◌≤◌, ◌<◌, refl, ap, Bool, true, false, some, List, [], ◌∷◌, ◌++◌, length,
  get_elem?, leb, ltb, ◌==◌, if◌then◌else◌, ◌&&◌, not, bytes_eq, bytes_eq_refl, Bool-cases, inl,
  inr, arith, length-append, take-append, drop-append,
}
use clip_ferry.Common.Bytes.{
  to_be_bytes, from_be_bytes, from-to_be_bytes, length-to_be_bytes, length-reverse, concat,
  offset_of, field_at-concat_end, field_at,
}
use clip_ferry.Common.Result.{IoResult, ok, err, guard, ok_or, ◌>>=◌, ◌>>◌, invalid_data}
use clip_ferry.Wire.Frame.{array_at_io, read_exact}

pub data Role : Type 0 where
  listener connector : Role

unfoldable pub role_as_u8 : Role → ℕ
role_as_u8 listener = 1
role_as_u8 connector = 2

unfoldable pub role_try_from : ℕ → IoResult Role
role_try_from n =
    if n == 1 then ok listener else (if n == 2 then ok connector else err invalid_data)

unfoldable pub same_role : Role → Role → Bool
same_role listener listener = true
same_role connector connector = true
same_role a b = false

-- b"CFPAIR01"
abbrev pub hello_magic : List ℕ
hello_magic = b'C' ∷ b'F' ∷ b'P' ∷ b'A' ∷ b'I' ∷ b'R' ∷ b'0' ∷ b'1' ∷ []

abbrev pub certificate_limit : ℕ
certificate_limit = 64 * 1024

abbrev pub hello_header_length : ℕ
hello_header_length = 47

pub record Hello : Type 0 where
  pub role : Role
  pub nonce : List ℕ
  pub certificate : List ℕ

-- `create` has checked the certificate, and the nonce is an array.
pub record IsHello (h : Hello) : Type 0 where
  pub nonce_32 : length h.nonce ≡ 32
  pub some_certificate : 0 < length h.certificate
  pub short_certificate : length h.certificate ≤ certificate_limit

unfoldable pub to_le_bytes : ℕ → ℕ → List ℕ
to_le_bytes w v = reverse (to_be_bytes w v)

unfoldable pub from_le_bytes : List ℕ → ℕ
from_le_bytes bs = from_be_bytes (reverse bs)

abbrev pub hello_fields : Hello → List (List ℕ)
hello_fields h =
    hello_magic
    ∷ to_le_bytes 2 1
    ∷ (role_as_u8 h.role ∷ [])
    ∷ h.nonce
    ∷ to_le_bytes 4 (length h.certificate)
    ∷ []

-- `Hello::encode`
unfoldable pub encode_hello : Hello → IoResult (List ℕ)
encode_hello h = do
  guard (ltb (length h.certificate) (256 ^ 4)) invalid_data
  ok (concat (hello_fields h) ++ h.certificate)

-- The checks on the header: the nonce and the certificate's length are left.
unfoldable pub read_hello_header : List ℕ → Role → IoResult (List ℕ × ℕ)
unfolding array_at_io
read_hello_header header expected = do
  magic ← array_at_io 8 header 0
  guard (bytes_eq magic hello_magic) invalid_data
  version ← array_at_io 2 header 8
  guard (from_le_bytes version == 1) invalid_data
  code ← ok_or (get_elem? header 10) invalid_data
  role ← role_try_from code
  guard (same_role role expected) invalid_data
  nonce ← array_at_io 32 header 11
  certificate_length ← array_at_io 4 header 43
  guard
      (not (from_le_bytes certificate_length == 0)
        && leb (from_le_bytes certificate_length) certificate_limit)
      invalid_data
  ok (nonce, from_le_bytes certificate_length)

-- `Hello::read_from`
unfoldable pub read_hello : List ℕ → Role → IoResult (Hello × List ℕ)
read_hello stream expected = do
  (header, stream') ← read_exact hello_header_length stream
  (nonce, certificate_length) ← read_hello_header header expected
  (certificate, rest) ← read_exact certificate_length stream'
  ok (record { role = expected; nonce = nonce; certificate = certificate }, rest)

pub length-to_le_bytes : (w v : ℕ) → length (to_le_bytes w v) ≡ w
unfolding to_le_bytes
length-to_le_bytes w v = length-reverse (to_be_bytes w v) ∙ length-to_be_bytes w v

pub from-to_le_bytes : (w v : ℕ) → v < 256 ^ w → from_le_bytes (to_le_bytes w v) ≡ v
unfolding to_le_bytes from_le_bytes
from-to_le_bytes w v h =
    ap from_be_bytes (reverse-reverse (to_be_bytes w v)) ∙ from-to_be_bytes w v h

role_try_from-role_as_u8 : (r : Role) → role_try_from (role_as_u8 r) ≡ ok r
unfolding role_try_from role_as_u8
role_try_from-role_as_u8 listener = refl
role_try_from-role_as_u8 connector = refl

same_role_eq : (a b : Role) → same_role a b ≡ true → b ≡ a
unfolding same_role
same_role_eq listener listener h = refl
same_role_eq listener connector h = cc
same_role_eq connector listener h = cc
same_role_eq connector connector h = refl

role_at : (h : Hello) → get_elem? (concat (hello_fields h)) 10 ≡ some (role_as_u8 h.role)
unfolding to_le_bytes to_be_bytes
role_at h = refl

read_exact-append : (n : ℕ) (a r : List ℕ) → length a ≡ n → read_exact n (a ++ r) ≡ ok (a, r)
unfolding read_exact
read_exact-append n a r e =
    let enough : leb (length a) (length (a ++ r)) ≡ true = ground (arith, length-append a r) in
    rw (← e, enough, take-append a r, drop-append a r) refl

module _ (h : Hello) (v : IsHello h) where
  hello_field :
      (i n k : ℕ) (f : List ℕ)
      → get_elem? (hello_fields h) i ≡ some f
      → offset_of (hello_fields h) i ≡ k
      → length f ≡ n
      → field_at n (concat (hello_fields h)) k ≡ some f
  hello_field i n k f e o l = field_at-concat_end (hello_fields h) i n k f e o l

  length-hello_fields : length (concat (hello_fields h)) ≡ 47
  length-hello_fields = simp length-append (
      omega
        (arith, length-to_le_bytes 2 1, length-to_le_bytes 4 (length h.certificate), v.nonce_32))

  read_hello_header-lem :
      (expected : Role)
      → read_hello_header (concat (hello_fields h)) expected ≡ (
          if same_role h.role expected
          then ok (h.nonce, length h.certificate)
          else err invalid_data)
  unfolding read_hello_header array_at_io
  read_hello_header-lem expected =
      let version = length-to_le_bytes 2 1 in
      let field_0 = hello_field 0 8 0 hello_magic refl refl refl in
      let field_1 = hello_field 1 2 8 (to_le_bytes 2 1) refl (omega arith) version in
      let field_3 = hello_field 3 32 11 h.nonce refl (omega (arith, version)) v.nonce_32 in
      let field_4 =
        hello_field 4 4 43 (to_le_bytes 4 (length h.certificate)) refl
          (omega (arith, version, v.nonce_32)) (length-to_le_bytes 4 (length h.certificate)) in
      let certificate_length =
        from-to_le_bytes 4 (length h.certificate) (omega (arith, v.short_certificate)) in
      let bounds : (not (length h.certificate == 0) && leb (length h.certificate) certificate_limit)
          ≡ true =
        ground (arith, v.some_certificate, v.short_certificate) in
      let one = from-to_le_bytes 2 1 (omega arith) in
      rw
        (
          field_0,
          bytes_eq_refl hello_magic,
          field_1,
          one,
          role_at h,
          role_try_from-role_as_u8 h.role,
          field_3,
          field_4,
          certificate_length,
        )
        (rw bounds (elim (Bool-cases (same_role h.role expected)) [
          | inl same ↦ rw same refl
          | inr other ↦ rw other refl
        ]))

-- What one side writes, the other side reads if it expects that role; the bytes that follow are
-- left over. A hello of the other role is refused.
pub read_hello-encode_hello :
    (h : Hello) (bytes rest : List ℕ) (expected : Role)
    → IsHello h
    → encode_hello h ≡ ok bytes
    → read_hello (bytes ++ rest) expected
      ≡ (if same_role h.role expected then ok (h, rest) else err invalid_data)
unfolding encode_hello read_hello
read_hello-encode_hello h bytes rest expected v e =
    let header : List ℕ = concat (hello_fields h) in
    let small : ltb (length h.certificate) (256 ^ 4) ≡ true = ground (arith, v.short_certificate) in
    let sent : header ++ h.certificate ≡ bytes =
      (let whole : ok (header ++ h.certificate) ≡ ok bytes = rw small at e in ground arith) in
    let cut = read_exact-append 47 header (h.certificate ++ rest) (length-hello_fields h v) in
    let rest_cut = read_exact-append (length h.certificate) h.certificate rest refl in
    rw (← sent, append_assoc header h.certificate rest, cut, read_hello_header-lem h v expected)
      (elim (Bool-cases (same_role h.role expected)) [
        | inl same ↦ rw (same, rest_cut, same_role_eq h.role expected same) refl
        | inr other ↦ rw other refl
      ])
