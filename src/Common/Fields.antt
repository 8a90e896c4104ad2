-- ===== src/Common/Fields.antt =====
-- Fields of one byte, the last field of a message, and fields behind a part that is known.
use clip_ferry.Common.{
  ℕ, zero, suc, ◌+◌, ◌≡◌, ◌∙◌, refl, sym, ap, some, List, [], ◌∷◌, ◌++◌, length, take, drop,
  get_elem?, arith, take_all, length-drop,
}
use clip_ferry.Common.Bytes.{field_at, field_at-skip}

get_elem?-drop : (k : ℕ) (bs : List ℕ) → get_elem? bs k ≡ get_elem? (drop k bs) 0
get_elem?-drop zero bs = refl
get_elem?-drop (suc k) [] = refl
get_elem?-drop (suc k) (b ∷ bs) = get_elem?-drop k bs

head_of : (bs : List ℕ) (b : ℕ) → take 1 bs ≡ b ∷ [] → get_elem? bs 0 ≡ some b
head_of [] b e = absurd (ground arith)
head_of (c ∷ bs) b e = ground arith

-- A field of one byte.
pub byte_at : (k b : ℕ) (bs : List ℕ) → field_at 1 bs k ≡ some (b ∷ []) → get_elem? bs k ≡ some b
unfolding field_at
byte_at k b bs e =
    let cut : take 1 (drop k bs) ≡ b ∷ [] = ground arith in
    get_elem?-drop k bs ∙ head_of (drop k bs) b cut

-- A field that ends where the packet ends.
pub field_to_end :
    (n k : ℕ) (bs : List ℕ) {f : List ℕ}
    → field_at n bs k ≡ some f
    → length bs ≡ k + n
    → drop k bs ≡ f
unfolding field_at
field_to_end n k bs {f} e size =
    let cut : take n (drop k bs) ≡ f = ground (arith, size) in
    sym (take_all n (drop k bs) (omega (arith, size, length-drop k bs))) ∙ cut

-- Behind `before`, the offsets count from its end.
pub field_at-after :
    (before bs : List ℕ) (n k : ℕ) → field_at n (before ++ bs) (length before + k) ≡ field_at n bs k
field_at-after before bs n k =
    field_at-skip before bs n (length before + k) (length before) refl (omega arith)
    ∙ ap (field_at n bs) (omega arith)
