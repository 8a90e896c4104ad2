-- ===== src/Tests/Pairing.antt =====
-- The messages of src/pairing.rs at concrete inputs.
use clip_ferry.Common.{ℕ, ◌≡◌, ◌↔◌, refl, true, false, List, [], ◌∷◌, ◌++◌, arith, if◌then◌else◌}
use clip_ferry.Common.Bytes.{concat}
use clip_ferry.Common.Result.{ok, err, invalid_data}
use clip_ferry.Pairing.Hello.{
  Hello, IsHello, listener, connector, same_role, hello_fields, encode_hello, read_hello,
  read_hello-encode_hello,
}
use clip_ferry.Pairing.Confirm.{check_confirmation, confirm_message, check_confirmation_iff}
use clip_ferry.Tests.Wire.{sixteen}

abbrev hello_1 : Hello
hello_1 = record { role = connector; nonce = sixteen 1 ++ sixteen 2; certificate = 48 ∷ 130 ∷ [] }

hello_1-IsHello : IsHello hello_1
hello_1-IsHello = record {
  nonce_32 = refl;
  some_certificate = omega arith;
  short_certificate = omega arith;
}

abbrev hello_1_bytes : List ℕ
hello_1_bytes = concat (hello_fields hello_1) ++ hello_1.certificate

encode_hello_1 : encode_hello hello_1 ≡ ok hello_1_bytes
unfolding encode_hello
encode_hello_1 = refl

read_hello-encode_hello_example :
    read_hello (hello_1_bytes ++ (9 ∷ [])) listener
    ≡ (if same_role connector listener then ok (hello_1, 9 ∷ []) else err invalid_data)
read_hello-encode_hello_example =
    read_hello-encode_hello hello_1 hello_1_bytes (9 ∷ []) listener hello_1-IsHello encode_hello_1

check_confirmation_iff_example :
    (check_confirmation
        (sixteen 1 ++ sixteen 2)
        true
        true
        (confirm_message (sixteen 1 ++ sixteen 2) false)
      ≡ ok tt)
    ↔ ((sixteen 1 ++ sixteen 2 ≡ sixteen 1 ++ sixteen 2)
        × (true ≡ true)
        × (false ≡ true)
        × (true ≡ true))
check_confirmation_iff_example =
    check_confirmation_iff (sixteen 1 ++ sixteen 2) (sixteen 1 ++ sixteen 2) true false true refl
      refl
