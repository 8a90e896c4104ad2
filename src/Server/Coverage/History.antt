-- ===== src/Server/Coverage/History.antt =====
-- A coverage over its whole history: what `unique_bytes` says of the ranges that were noted.
use clip_ferry.Common.{
  ℕ, ◌+◌, ◌^◌, ◌≤◌, ◌<◌, ◌≡◌, ◌∙◌, refl, sym, Bool, true, false, List, [], ◌∷◌, length, leb, ltb,
  ◌==◌, ◌||◌, arith, Bool-cases, inl, inr,
}
use clip_ferry.Server.Coverage.{
  RangeCoverage, no_coverage, note, store_merged, max_tracked_ranges, total, in_range, covered,
}
use clip_ferry.Server.Coverage.Merge.{Normal, Proper, merged_with, merged_with_facts}
use clip_ferry.Server.Coverage.Count.{
  count_below, count_below_cong, count_below_mono, count_below-covered, total-le,
}

-- The vector is in normal form, of bounded length, and `unique_bytes` is its total; after
-- saturation the number is frozen.
pub record IsCoverage (c : RangeCoverage) : Type 0 where
  pub normal : Normal 0 c.ranges
  pub proper : Proper (2 ^ 64) c.ranges
  pub bounded : length c.ranges ≤ max_tracked_ranges
  pub counted : c.saturated ≡ false → c.unique_bytes ≡ total c.ranges
  pub fits : c.unique_bytes ≤ 2 ^ 64

pub no_coverage-IsCoverage : IsCoverage no_coverage
unfolding total
no_coverage-IsCoverage = record {
  normal = tt;
  proper = tt;
  bounded = omega arith;
  counted = λ _. refl;
  fits = omega arith;
}

store_merged-IsCoverage :
    (c : RangeCoverage) (rs : List (ℕ × ℕ))
    → IsCoverage c
    → Normal 0 rs
    → Proper (2 ^ 64) rs
    → IsCoverage (store_merged c rs)
unfolding store_merged
store_merged-IsCoverage c rs v n p = elim (Bool-cases (ltb max_tracked_ranges (length rs))) [
  | inl full ↦
      rw full (record {
        normal = tt;
        proper = tt;
        bounded = omega arith;
        counted = λ h. cc;
        fits = v.fits;
      })
  | inr fits ↦ rw fits (record {
    normal = n;
    proper = p;
    bounded = ground arith;
    counted = λ _. refl;
    fits = total-le (2 ^ 64) 0 rs n p;
  })
]

abbrev saturate : RangeCoverage → RangeCoverage
saturate c = record c { saturated = true }

-- The three ways through `note`.
note_cases {ℓ} :
    (P : RangeCoverage → Type ℓ) (c : RangeCoverage) (start len : ℕ)
    → ((c.saturated || (len == 0)) ≡ true → P c)
    → P (saturate c)
    → (c.saturated ≡ false
        → 0 < len
        → start + len < 2 ^ 64
        → P (store_merged c (merged_with c.ranges start (start + len))))
    → P (note c start len)
unfolding note
note_cases P c start len same full stored = elim (Bool-cases (c.saturated || (len == 0))) [
  | inl skip ↦ rw skip (same skip)
  | inr go ↦ rw go (elim (Bool-cases (leb (2 ^ 64) (start + len))) [
    | inl over ↦ rw over full
    | inr under ↦ rw under (stored (ground arith) (ground arith) (ground arith))
  ])
]

-- `note` keeps the vector sorted, disjoint and bounded, and the number of bytes in step with it.
pub note-IsCoverage :
    (c : RangeCoverage) (start len : ℕ) → IsCoverage c → IsCoverage (note c start len)
note-IsCoverage c start len v =
    note_cases IsCoverage c start len (λ _. v)
      (record {
        normal = v.normal;
        proper = v.proper;
        bounded = v.bounded;
        counted = λ h. cc;
        fits = v.fits;
      })
      (λ live some_bytes fits.
        let (n, p, _) =
          merged_with_facts (2 ^ 64) start (start + len) c.ranges (omega arith) fits v.proper in
        store_merged-IsCoverage c (merged_with c.ranges start (start + len)) v n p)

store_merged_covered :
    (c : RangeCoverage) (rs : List (ℕ × ℕ))
    → (store_merged c rs).saturated ≡ false
    → (store_merged c rs).ranges ≡ rs
unfolding store_merged
store_merged_covered c rs h = ground arith

-- While it is not saturated, `note` adds just the bytes of the new range.
pub covered-note :
    (c : RangeCoverage) (start len b : ℕ)
    → IsCoverage c
    → (note c start len).saturated ≡ false
    → (c.saturated ≡ false)
      × (covered (note c start len).ranges b
          ≡ (covered c.ranges b || in_range start (start + len) b))
covered-note c start len b v =
    note_cases
      (λ d.
        d.saturated ≡ false
        → (c.saturated ≡ false)
          × (covered d.ranges b ≡ (covered c.ranges b || in_range start (start + len) b)))
      c start len (λ skip live. (live, ground arith)) (λ h. cc)
      (λ live some_bytes fits h.
        let (_, _, same) =
          merged_with_facts (2 ^ 64) start (start + len) c.ranges (omega arith) fits v.proper in
        (live, rw (store_merged_covered c (merged_with c.ranges start (start + len)) h) (same b)))

-- The reads of a session, oldest first.
unfoldable pub note_all : RangeCoverage → List (ℕ × ℕ) → RangeCoverage
note_all c [] = c
note_all c ((start, len) ∷ reads) = note_all (note c start len) reads

-- Byte `b` was part of a read.
unfoldable pub was_read : List (ℕ × ℕ) → ℕ → Bool
was_read [] b = false
was_read ((start, len) ∷ reads) b = in_range start (start + len) b || was_read reads b

note_all-IsCoverage :
    (c : RangeCoverage) (reads : List (ℕ × ℕ)) → IsCoverage c → IsCoverage (note_all c reads)
unfolding note_all
note_all-IsCoverage c [] v = v
note_all-IsCoverage c ((start, len) ∷ reads) v =
    note_all-IsCoverage (note c start len) reads (note-IsCoverage c start len v)

covered-note_all :
    (c : RangeCoverage) (reads : List (ℕ × ℕ))
    → IsCoverage c
    → (note_all c reads).saturated ≡ false
    → (c.saturated ≡ false)
      × ((b : ℕ) → covered (note_all c reads).ranges b ≡ (covered c.ranges b || was_read reads b))
unfolding note_all was_read
covered-note_all c [] v h = (h, λ b. ground arith)
covered-note_all c ((start, len) ∷ reads) v h =
    let (live, rest) =
      covered-note_all (note c start len) reads (note-IsCoverage c start len v) h in
    (
      (covered-note c start len 0 v live).0,
      λ b. ground (arith, rest b, (covered-note c start len b v live).1),
    )

-- From the start of a session and until it saturates, `unique_bytes` is the number of distinct
-- bytes of the file that some read was served, however the reads overlap and in whatever order.
pub unique_bytes-note_all :
    (reads : List (ℕ × ℕ))
    → (note_all no_coverage reads).saturated ≡ false
    → (note_all no_coverage reads).unique_bytes ≡ count_below (2 ^ 64) (was_read reads)
unique_bytes-note_all reads h =
    let v = note_all-IsCoverage no_coverage reads no_coverage-IsCoverage in
    let (_, same) = covered-note_all no_coverage reads no_coverage-IsCoverage h in
    v.counted h
    ∙ sym (count_below-covered (2 ^ 64) 0 (note_all no_coverage reads).ranges v.normal v.proper)
    ∙ count_below_cong (2 ^ 64) (covered (note_all no_coverage reads).ranges) (was_read reads)
        (λ b. same b ∙ (unfold covered in refl))

store_merged_unique :
    (c : RangeCoverage) (rs : List (ℕ × ℕ))
    → c.unique_bytes ≤ total rs
    → c.unique_bytes ≤ (store_merged c rs).unique_bytes
unfolding store_merged
store_merged_unique c rs h = ground arith

-- The number never falls, also when the coverage saturates.
pub unique_bytes-le-note :
    (c : RangeCoverage) (start len : ℕ)
    → IsCoverage c
    → c.unique_bytes ≤ (note c start len).unique_bytes
unique_bytes-le-note c start len v =
    note_cases (λ d. c.unique_bytes ≤ d.unique_bytes) c start len (λ _. omega arith) (omega arith)
      λ live some_bytes fits.
        let merged : List (ℕ × ℕ) = merged_with c.ranges start (start + len) in
        let (n, p, same) =
          merged_with_facts (2 ^ 64) start (start + len) c.ranges (omega arith) fits v.proper in
        store_merged_unique c merged (
          omega (
            arith,
            v.counted live,
            count_below-covered (2 ^ 64) 0 c.ranges v.normal v.proper,
            count_below-covered (2 ^ 64) 0 merged n p,
            count_below_mono (2 ^ 64) (covered c.ranges) (covered merged)
                (λ b h. ground (arith, same b)),
          ))
