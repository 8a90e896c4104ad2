-- ===== src/Pairing/Confirm.antt =====
-- `PendingPairing::confirm` of src/pairing.rs, from the messages on: each side sends its decision
-- with the hash of the transcript. The device store comes after the exchange: whether it still holds
-- the local identity is an argument.
use clip_ferry.Common.{
  ℕ, ◌≡◌, ◌∙◌, ◌↔◌, refl, sym, ap, suc, zero, Bool, true, false, some, List, [], ◌∷◌, ◌++◌, length,
  take, drop, get_elem?, leb, ◌==◌, ◌&&◌, not, bytes_eq, bytes_eq_iff, arith, take-append,
}
use clip_ferry.Common.Result.{
  IoResult, ok, guard, ok_or, ◌>>=◌, ◌>>◌, invalid_data, permission_denied,
}

-- b"CFPCNF01"
abbrev pub confirm_magic : List ℕ
confirm_magic = b'C' ∷ b'F' ∷ b'P' ∷ b'C' ∷ b'N' ∷ b'F' ∷ b'0' ∷ b'1' ∷ []

abbrev pub approval_byte : Bool → ℕ
approval_byte true = 1
approval_byte false = 0

unfoldable pub confirm_message : List ℕ → Bool → List ℕ
confirm_message transcript approved = confirm_magic ++ (transcript ++ (approval_byte approved ∷ []))

-- The checks on the remote message, and on the identity.
unfoldable pub check_confirmation : List ℕ → Bool → Bool → List ℕ → IoResult (Unit {0})
check_confirmation transcript approved same_identity remote = do
  guard (bytes_eq (take 8 remote) confirm_magic && bytes_eq (take 32 (drop 8 remote)) transcript)
      invalid_data
  decision ← ok_or (get_elem? remote 40) invalid_data
  guard (leb decision 1) invalid_data
  guard (approved && not (decision == 0)) permission_denied
  guard same_identity invalid_data

get_elem?-append : (xs : List ℕ) (n y : ℕ) → length xs ≡ n → get_elem? (xs ++ (y ∷ [])) n ≡ some y
get_elem?-append [] zero y e = refl
get_elem?-append [] (suc n) y e = absurd (omega (arith, e))
get_elem?-append (x ∷ xs) zero y e = absurd (omega (arith, e))
get_elem?-append (x ∷ xs) (suc n) y e = get_elem?-append xs n y (omega (arith, e))

take_transcript : (xs : List ℕ) (n y : ℕ) → length xs ≡ n → take n (xs ++ (y ∷ [])) ≡ xs
take_transcript xs n y e = ap (λ k. take k (xs ++ (y ∷ []))) (sym e) ∙ take-append xs (y ∷ [])

-- The checks that are left where the message has the right form.
confirmed :
    {P : Type 0} (matches : Bool)
    → ((matches ≡ true) ↔ P)
    → (we_approved they_approved same_identity : Bool)
    → ((do
      guard matches invalid_data
      decision ← ok_or (some (approval_byte they_approved)) invalid_data
      guard (leb decision 1) invalid_data
      guard (we_approved && not (decision == 0)) permission_denied
      guard same_identity invalid_data)
        ≡ ok tt)
      ↔ (P × (we_approved ≡ true) × (they_approved ≡ true) × (same_identity ≡ true))
confirmed false v w t i = ((λ h. cc), (λ p. let wrong = v.1 p.0 in absurd (ground arith)))
confirmed true v true true true = ((λ h. (v.0 refl, refl, refl, refl)), λ p. refl)
confirmed true v true true false = ((λ h. cc), λ p. cc)
confirmed true v true false i = ((λ h. cc), λ p. cc)
confirmed true v false true i = ((λ h. cc), λ p. cc)
confirmed true v false false i = ((λ h. cc), λ p. cc)

-- A side that gets the other side's message accepts the pairing exactly if both sides saw the same
-- transcript, both users approved, and the local identity is still the one that was shown.
pub check_confirmation_iff :
    (ours theirs : List ℕ) (we_approved they_approved same_identity : Bool)
    → length ours ≡ 32
    → length theirs ≡ 32
    → (check_confirmation ours we_approved same_identity (confirm_message theirs they_approved)
        ≡ ok tt)
      ↔ ((theirs ≡ ours) × (we_approved ≡ true) × (they_approved ≡ true) × (same_identity ≡ true))
unfolding check_confirmation confirm_message bytes_eq
check_confirmation_iff ours theirs we_approved they_approved same_identity e f =
    let cut = take_transcript theirs 32 (approval_byte they_approved) f in
    let last = get_elem?-append theirs 32 (approval_byte they_approved) f in
    rw (cut, last)
      (confirmed (bytes_eq theirs ours) (bytes_eq_iff theirs ours) we_approved they_approved
        same_identity)
