-- ===== src/Server/Coverage.antt =====
-- `RangeCoverage` of src/clipboard/secure_transfer.rs: which bytes of a file were served, as a
-- sorted vector of ranges [start, end) that neither overlap nor touch.
pub mod Merge
pub mod Count
pub mod History
use clip_ferry.Common.{
  ℕ, ◌+◌, ◌-◌, ◌^◌, max, Bool, true, false, List, [], ◌∷◌, ◌++◌, length, leb, ltb, ◌==◌, ◌||◌, ◌&&◌,
  if◌then◌else◌,
}
use mathlib.Core.List.{reverse}

abbrev pub max_tracked_ranges : ℕ
max_tracked_ranges = 4096

pub record RangeCoverage : Type 0 where
  pub ranges : List (ℕ × ℕ)
  pub unique_bytes : ℕ
  pub saturated : Bool

-- `RangeCoverage::default()`
abbrev pub no_coverage : RangeCoverage
no_coverage = record { ranges = []; unique_bytes = 0; saturated = false }

-- `sort_unstable_by_key(|range| range.0)`
unfoldable pub insert_by_start : ℕ × ℕ → List (ℕ × ℕ) → List (ℕ × ℕ)
insert_by_start (s, e) [] = (s, e) ∷ []
insert_by_start (s, e) ((t, f) ∷ rs) =
    if leb s t then (s, e) ∷ (t, f) ∷ rs else (t, f) ∷ insert_by_start (s, e) rs

unfoldable pub sort_by_start : List (ℕ × ℕ) → List (ℕ × ℕ)
sort_by_start [] = []
sort_by_start (r ∷ rs) = insert_by_start r (sort_by_start rs)

-- What one round of the loop makes of the last merged range and the range `(s, e)` that comes next.
abbrev pub push_range : ℕ × ℕ → ℕ × ℕ → List (ℕ × ℕ) → List (ℕ × ℕ)
push_range (ls, le) (s, e) merged =
    if leb s le then (ls, max le e) ∷ merged else (s, e) ∷ (ls, le) ∷ merged

-- The loop over the sorted ranges. The head of `merged` is the vector's last element.
unfoldable pub merge_loop : List (ℕ × ℕ) → List (ℕ × ℕ) → List (ℕ × ℕ)
merge_loop merged [] = reverse merged
merge_loop [] (r ∷ rs) = merge_loop (r ∷ []) rs
merge_loop (last ∷ merged) (r ∷ rs) = merge_loop (push_range last r merged) rs

-- `merged.iter().map(|(start, end)| end - start).sum()`
unfoldable pub total : List (ℕ × ℕ) → ℕ
total [] = 0
total ((s, e) ∷ rs) = e - s + total rs

-- The end of `note`: what it does with the merged vector.
unfoldable pub store_merged : RangeCoverage → List (ℕ × ℕ) → RangeCoverage
store_merged c merged =
    if ltb max_tracked_ranges (length merged)
    then record c { ranges = []; saturated = true }
    else record c { ranges = merged; unique_bytes = total merged }

unfoldable pub note : RangeCoverage → ℕ → ℕ → RangeCoverage
note c start len =
    if c.saturated || (len == 0)
    then c
    else if leb (2 ^ 64) (start + len)
    then record c { saturated = true }
    else store_merged c (merge_loop [] (sort_by_start (c.ranges ++ ((start, start + len) ∷ []))))

-- Byte `b` lies in [s, e).
abbrev pub in_range : ℕ → ℕ → ℕ → Bool
in_range s e b = leb s b && ltb b e

unfoldable pub covered : List (ℕ × ℕ) → ℕ → Bool
covered [] b = false
covered ((s, e) ∷ rs) b = in_range s e b || covered rs b
