-- ===== src/Server/Coverage/Count.antt =====
-- The total of a vector in normal form counts the bytes that it covers.
use clip_ferry.Common.{
  ℕ, zero, suc, ◌+◌, ◌-◌, ◌≤◌, ◌<◌, ◌≡◌, ◌∙◌, refl, ap, min, Bool, true, false, List, [], ◌∷◌, ◌||◌,
  if◌then◌else◌, arith, Bool-cases, inl, inr,
}
use mathlib.Core.Path.{fun_ext}
use clip_ferry.Server.Coverage.{total, in_range, covered}
use clip_ferry.Server.Coverage.Merge.{Normal, Proper}

-- How many numbers below `n` pass the test.
unfoldable pub count_below : ℕ → (ℕ → Bool) → ℕ
count_below zero p = 0
count_below (suc n) p = (if p n then 1 else 0) + count_below n p

pub count_below_cong :
    (n : ℕ) (p q : ℕ → Bool) → ((b : ℕ) → p b ≡ q b) → count_below n p ≡ count_below n q
count_below_cong n p q h = ap (count_below n) (fun_ext h)

pub count_below_mono :
    (n : ℕ) (p q : ℕ → Bool)
    → ((b : ℕ) → p b ≡ true → q b ≡ true)
    → count_below n p ≤ count_below n q
unfolding count_below
count_below_mono zero p q h = omega arith
count_below_mono (suc n) p q h = ground (arith, h n, count_below_mono n p q h)

count_below_or :
    (n : ℕ) (p q : ℕ → Bool)
    → ((b : ℕ) → p b ≡ true → q b ≡ false)
    → count_below n (λ b. p b || q b) ≡ count_below n p + count_below n q
unfolding count_below
count_below_or zero p q h = omega arith
count_below_or (suc n) p q h = ground (arith, h n, count_below_or n p q h)

count_below_none : (n : ℕ) → count_below n (λ b. false) ≡ 0
unfolding count_below
count_below_none zero = refl
count_below_none (suc n) = omega (arith, count_below_none n)

count_below_range : (n s e : ℕ) → count_below n (in_range s e) ≡ min e n - s
unfolding count_below
count_below_range zero s e = omega arith
count_below_range (suc n) s e = ground (arith, count_below_range n s e)

covered_from : (k : ℕ) (rs : List (ℕ × ℕ)) (b : ℕ) → Normal k rs → covered rs b ≡ true → k ≤ b
unfolding covered
covered_from k [] b v h = cc
covered_from k ((s, e) ∷ rs) b v h = ground (arith, covered_from (suc e) rs b)

covered_before : (k : ℕ) (rs : List (ℕ × ℕ)) (b : ℕ) → Normal k rs → b < k → covered rs b ≡ false
covered_before k rs b v h = elim (Bool-cases (covered rs b)) [
  | inl is ↦ absurd (omega (arith, covered_from k rs b v is))
  | inr not ↦ not
]

-- So `unique_bytes` is a number of distinct bytes.
pub count_below-covered :
    (limit k : ℕ) (rs : List (ℕ × ℕ))
    → Normal k rs
    → Proper limit rs
    → count_below limit (covered rs) ≡ total rs
unfolding covered total
count_below-covered limit k [] v p = count_below_none limit
count_below-covered limit k ((s, e) ∷ rs) v p =
    count_below_or limit (in_range s e) (covered rs)
      (λ b h. covered_before (suc e) rs b v.2 (ground arith))
    ∙ omega (arith, count_below_range limit s e, count_below-covered limit (suc e) rs v.2 p.2)

pub total-le :
    (limit k : ℕ) (rs : List (ℕ × ℕ)) → Normal k rs → Proper limit rs → total rs ≤ limit - k
unfolding total
total-le limit k [] v p = omega arith
total-le limit k ((s, e) ∷ rs) v p = omega (arith, total-le limit (suc e) rs v.2 p.2)
