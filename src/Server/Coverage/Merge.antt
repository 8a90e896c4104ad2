-- ===== src/Server/Coverage/Merge.antt =====
-- Sorting and merging keep the set of bytes and give a vector in normal form.
use clip_ferry.Common.{
  ℕ, suc, ◌≤◌, ◌<◌, ◌≡◌, ◌∙◌, refl, max, List, [], ◌∷◌, ◌++◌, leb, ◌||◌, if◌then◌else◌, arith,
  Bool-cases, inl, inr,
}
use mathlib.Core.List.{reverse, reverse-cons, append_assoc}
use clip_ferry.Server.Coverage.{insert_by_start, sort_by_start, merge_loop, in_range, covered}

-- Every range is there and its end is below the limit.
abbrev pub Proper : ℕ → List (ℕ × ℕ) → Type 0
Proper limit [] = Unit {0}
Proper limit ((s, e) ∷ rs) = (s < e) × (e < limit) × Proper limit rs

-- Starts rise along the list, from `k` on.
abbrev pub SortedFrom : ℕ → List (ℕ × ℕ) → Type 0
SortedFrom k [] = Unit {0}
SortedFrom k ((s, e) ∷ rs) = (k ≤ s) × SortedFrom s rs

-- Normal form from `k` on: ranges rise, and a byte at least lies between two of them.
abbrev pub Normal : ℕ → List (ℕ × ℕ) → Type 0
Normal k [] = Unit {0}
Normal k ((s, e) ∷ rs) = (k ≤ s) × (s < e) × Normal (suc e) rs

SortedFrom-le : (j k : ℕ) (rs : List (ℕ × ℕ)) → j ≤ k → SortedFrom k rs → SortedFrom j rs
SortedFrom-le j k [] h v = tt
SortedFrom-le j k ((s, e) ∷ rs) h v = (omega arith, v.1)

insert_by_start-Proper :
    (limit s e : ℕ) (rs : List (ℕ × ℕ))
    → s < e
    → e < limit
    → Proper limit rs
    → Proper limit (insert_by_start (s, e) rs)
unfolding insert_by_start
insert_by_start-Proper limit s e [] h b v = (h, b, tt)
insert_by_start-Proper limit s e ((t, f) ∷ rs) h b v =
    ground (arith, insert_by_start-Proper limit s e rs h b v.2)

insert_by_start-SortedFrom :
    (k s e : ℕ) (rs : List (ℕ × ℕ))
    → k ≤ s
    → SortedFrom k rs
    → SortedFrom k (insert_by_start (s, e) rs)
unfolding insert_by_start
insert_by_start-SortedFrom k s e [] h v = (h, tt)
insert_by_start-SortedFrom k s e ((t, f) ∷ rs) h v =
    ground (arith, insert_by_start-SortedFrom t s e rs)

covered-insert_by_start :
    (s e : ℕ) (rs : List (ℕ × ℕ)) (b : ℕ)
    → covered (insert_by_start (s, e) rs) b ≡ (in_range s e b || covered rs b)
unfolding insert_by_start covered
covered-insert_by_start s e [] b = refl
covered-insert_by_start s e ((t, f) ∷ rs) b = ground (arith, covered-insert_by_start s e rs b)

sort_by_start-Proper :
    (limit : ℕ) (rs : List (ℕ × ℕ)) → Proper limit rs → Proper limit (sort_by_start rs)
unfolding sort_by_start
sort_by_start-Proper limit [] v = tt
sort_by_start-Proper limit ((s, e) ∷ rs) v =
    insert_by_start-Proper limit s e (sort_by_start rs) v.0 v.1 (sort_by_start-Proper limit rs v.2)

sort_by_start-SortedFrom : (rs : List (ℕ × ℕ)) → SortedFrom 0 (sort_by_start rs)
unfolding sort_by_start
sort_by_start-SortedFrom [] = tt
sort_by_start-SortedFrom ((s, e) ∷ rs) =
    insert_by_start-SortedFrom 0 s e (sort_by_start rs) (omega arith) (sort_by_start-SortedFrom rs)

covered-sort_by_start : (rs : List (ℕ × ℕ)) (b : ℕ) → covered (sort_by_start rs) b ≡ covered rs b
unfolding sort_by_start covered
covered-sort_by_start [] b = refl
covered-sort_by_start ((s, e) ∷ rs) b =
    covered-insert_by_start s e (sort_by_start rs) b ∙ rw (covered-sort_by_start rs b)

-- The merged vector from the range `(ls, le)` on, front to back.
merge_from : ℕ → ℕ → List (ℕ × ℕ) → List (ℕ × ℕ)
merge_from ls le [] = (ls, le) ∷ []
merge_from ls le ((s, e) ∷ rs) =
    let joined = merge_from ls (max le e) rs in
    let apart = (ls, le) ∷ merge_from s e rs in if leb s le then joined else apart

merge_loop-merge_from :
    (ls le : ℕ) (merged rs : List (ℕ × ℕ))
    → merge_loop ((ls, le) ∷ merged) rs ≡ reverse merged ++ merge_from ls le rs
unfolding merge_loop merge_from
merge_loop-merge_from ls le merged [] = reverse-cons (ls, le) merged
merge_loop-merge_from ls le merged ((s, e) ∷ rs) = elim (Bool-cases (leb s le)) [
  | inl near ↦ rw near (merge_loop-merge_from ls (max le e) merged rs)
  | inr far ↦ rw far (
      merge_loop-merge_from s e ((ls, le) ∷ merged) rs
      ∙ rw (reverse-cons (ls, le) merged) (append_assoc (reverse merged) ((ls, le) ∷ []) _))
]

module _ (limit : ℕ) where
  merge_from-Proper :
      (ls le : ℕ) (rs : List (ℕ × ℕ))
      → ls < le
      → le < limit
      → Proper limit rs
      → Proper limit (merge_from ls le rs)
  unfolding merge_from
  merge_from-Proper ls le [] h b v = (h, b, tt)
  merge_from-Proper ls le ((s, e) ∷ rs) h b v =
      ground (arith, merge_from-Proper ls (max le e) rs, merge_from-Proper s e rs)

  merge_from-Normal :
      (k ls le : ℕ) (rs : List (ℕ × ℕ))
      → k ≤ ls
      → ls < le
      → SortedFrom ls rs
      → Proper limit rs
      → Normal k (merge_from ls le rs)
  unfolding merge_from
  merge_from-Normal k ls le [] low h v p = (low, h, tt)
  merge_from-Normal k ls le ((s, e) ∷ rs) low h v p = ground (
    arith,
    merge_from-Normal k ls (max le e) rs,
    SortedFrom-le ls s rs,
    merge_from-Normal (suc le) s e rs,
  )

covered-merge_from :
    (ls le : ℕ) (rs : List (ℕ × ℕ)) (b : ℕ)
    → SortedFrom ls rs
    → covered (merge_from ls le rs) b ≡ (in_range ls le b || covered rs b)
unfolding merge_from covered
covered-merge_from ls le [] b v = refl
covered-merge_from ls le ((s, e) ∷ rs) b v = elim (Bool-cases (leb s le)) [
  | inl near ↦
      rw near (covered-merge_from ls (max le e) rs b (SortedFrom-le ls s rs v.0 v.1) ∙ ground arith)
  | inr far ↦ rw (far, covered) (rw (covered-merge_from s e rs b v.1))
]

-- The loop of `note` on a sorted vector.
merge_sorted :
    (rs : List (ℕ × ℕ))
    → SortedFrom 0 rs
    → (limit : ℕ) → Proper limit rs
    → Normal 0 (merge_loop [] rs)
      × Proper limit (merge_loop [] rs)
      × ((b : ℕ) → covered (merge_loop [] rs) b ≡ covered rs b)
unfolding merge_loop covered
merge_sorted [] v limit p = (tt, tt, λ b. refl)
merge_sorted ((s, e) ∷ rs) v limit p = rw (merge_loop-merge_from s e [] rs) (
  merge_from-Normal limit 0 s e rs v.0 p.0 v.1 p.2,
  merge_from-Proper limit s e rs p.0 p.1 p.2,
  λ b. covered-merge_from s e rs b v.1,
)

Proper-append :
    (limit s e : ℕ) (rs : List (ℕ × ℕ))
    → s < e
    → e < limit
    → Proper limit rs
    → Proper limit (rs ++ ((s, e) ∷ []))
Proper-append limit s e [] h b v = (h, b, tt)
Proper-append limit s e ((t, f) ∷ rs) h b v = (v.0, v.1, Proper-append limit s e rs h b v.2)

covered-append :
    (rs : List (ℕ × ℕ)) (s e b : ℕ)
    → covered (rs ++ ((s, e) ∷ [])) b ≡ (covered rs b || in_range s e b)
unfolding covered
covered-append [] s e b = ground arith
covered-append ((t, f) ∷ rs) s e b = ground (arith, covered-append rs s e b)

abbrev pub merged_with : List (ℕ × ℕ) → ℕ → ℕ → List (ℕ × ℕ)
merged_with rs s e = merge_loop [] (sort_by_start (rs ++ ((s, e) ∷ [])))

-- Pushing a range, sorting and merging adds just the bytes of the range.
pub merged_with_facts :
    (limit s e : ℕ) (rs : List (ℕ × ℕ))
    → s < e
    → e < limit
    → Proper limit rs
    → Normal 0 (merged_with rs s e)
      × Proper limit (merged_with rs s e)
      × ((b : ℕ) → covered (merged_with rs s e) b ≡ (covered rs b || in_range s e b))
merged_with_facts limit s e rs h b v =
    let all : List (ℕ × ℕ) = rs ++ ((s, e) ∷ []) in
    let (normal, proper, same) =
      merge_sorted (sort_by_start all) (sort_by_start-SortedFrom all) limit
        (sort_by_start-Proper limit all (Proper-append limit s e rs h b v)) in
    (normal, proper, λ x. same x ∙ covered-sort_by_start all x ∙ covered-append rs s e x)
