-- ===== src/Common/Result.antt =====
-- Rust's `Result` with `?` as bind, and the kinds of `std::io::Error` that the program tells apart.
-- Error messages are text for people and are left out.
use mathlib.Core.Path.{◌≡◌, refl}
use mathlib.Core.Bool.{Bool, true, false}
use mathlib.Core.Option.{Option, none, some}

pub data Result (E A : Type 0) : Type 0 where
  ok : A → Result E A
  err : E → Result E A

-- The `?` operator: an error leaves, a value goes on.
infixl 5 ◌>>=◌ ◌>>◌
abbrev pub ◌>>=◌ : {E A B : Type 0} → Result E A → (A → Result E B) → Result E B
err failure >>= next = err failure
ok value >>= next = next value

-- `option.ok_or(failure)?`
abbrev pub ok_or : {E A : Type 0} → Option A → E → Result E A
ok_or (some value) failure = ok value
ok_or none failure = err failure

abbrev pub ◌>>◌ : {E B : Type 0} → Result E (Unit {0}) → Result E B → Result E B
first >> second = first >>= λ _. second

pub data IoError : Type 0 where
  invalid_data invalid_input unexpected_eof permission_denied timed_out : IoError
  would_block interrupted connection_aborted connection_reset broken_pipe not_connected other :
      IoError

abbrev pub IoResult : Type 0 → Type 0
IoResult = Result IoError

-- `if !test { return Err(failure); }`
abbrev pub guard : {E : Type 0} → Bool → E → Result E (Unit {0})
guard false failure = err failure
guard true failure = ok tt

-- Both steps of a chain that ends with a value have succeeded.
pub >>=-eq-ok :
    {E A B : Type 0} (first : Result E A) (next : A → Result E B) {b : B}
    → (first >>= next) ≡ ok b
    → (value : A) × (first ≡ ok value) × (next value ≡ ok b)
>>=-eq-ok (err failure) next done = cc
>>=-eq-ok (ok value) next done = (value, refl, done)
