-- ===== src/Clipboard/Formats.antt =====
-- `FormatEnumerator` of src/clipboard/format_enum.rs: a cursor over the list of formats. The
-- probe's log is left out.
use clip_ferry.Common.{
  ℕ, ◌+◌, ◌-◌, ◌≤◌, ◌≡◌, ◌∙◌, refl, ap, min, Bool, List, ◌++◌, length, take, drop, ◌==◌,
  if◌then◌else◌, ◌||◌, ◌&&◌, not, arith, take-add, drop-drop, leb, length-take, length-drop, false,
}
use clip_ferry.Common.Result.{ok, err}
use clip_ferry.Clipboard.Source.{ComResult, e_pointer}

module _ {A : Type 0} where
  -- `Next` behind its checks: the position after it, and the formats that it writes.
  unfoldable pub fetch : List A → ℕ → ℕ → ℕ × List A
  fetch formats requested position =
      let fetched = min requested (length formats - position) in
      (position + fetched, take fetched (drop position formats))

  -- `Next`: with the flags of a null output and a null count. The answer is S_OK or S_FALSE.
  unfoldable pub next : List A → ℕ → Bool → Bool → ℕ → ℕ × ComResult (List A × Bool)
  unfolding fetch
  next formats requested null_output null_fetched position =
      if (not (requested == 1) && null_fetched) || (not (requested == 0) && null_output)
      then (position, err e_pointer)
      else (let (position', items) = fetch formats requested position in
          (position', ok (items, length items == requested)))

  -- `Skip`: the answer is the success or S_FALSE.
  unfoldable pub skip : List A → ℕ → ℕ → ℕ × Bool
  skip formats requested position =
      let skipped = min requested (length formats - position) in
      (position + skipped, skipped == requested)

unfoldable pub reset : ℕ → ℕ
reset position = 0

fetch_twice :
    {A : Type 0} (formats : List A) (n m position : ℕ)
    → position ≤ length formats
    → fetch formats (n + m) position ≡ (
      (fetch formats m (fetch formats n position).0).0,
      (fetch formats n position).1 ++ (fetch formats m (fetch formats n position).0).1,
    )
unfolding fetch
fetch_twice formats n m position small =
    let count = min n (length formats - position) in
    let rest = drop position formats in
    let more = min m (length formats - (position + count)) in
    let split : min (n + m) (length formats - position) ≡ count + more = omega (arith, small) in
    rw split (
      ap (λ ys. (position + (count + more), ys))
        (take-add count more rest
          ∙ ap (λ ys. take count rest ++ take more ys) (drop-drop position count formats))
      ∙ ap (λ k. (k, take count rest ++ take more (drop (position + count) formats))) (omega arith))

length-fetch :
    {A : Type 0} (formats : List A) (n position : ℕ)
    → length (fetch formats n position).1 ≡ min n (length formats - position)
unfolding fetch
length-fetch formats n position = omega (
  arith,
  length-take (min n (length formats - position)) (drop position formats),
  length-drop position formats,
)

-- The answer S_OK, that as many formats as asked for are there.
abbrev pub is_all : {A : Type 0} → List A → ℕ → ℕ → Bool
is_all formats n position = leb n (length formats - position)

next-lem :
    {A : Type 0} (formats : List A) (n position : ℕ)
    → next formats n false false position
      ≡ ((fetch formats n position).0, ok ((fetch formats n position).1, is_all formats n position))
unfolding next
next-lem formats n position =
    let exact : (length (fetch formats n position).1 == n) ≡ is_all formats n position =
      ground (arith, length-fetch formats n position) in
    let there : ((not (n == 1) && false) || (not (n == 0) && false)) ≡ false = ground arith in
    rw (there, exact) refl

skip-lem :
    {A : Type 0} (formats : List A) (n position : ℕ)
    → skip formats n position ≡ ((fetch formats n position).0, is_all formats n position)
unfolding skip fetch
skip-lem formats n position =
    let same : (min n (length formats - position) == n) ≡ is_all formats n position =
      ground arith in
    rw same refl

is_all_twice :
    {A : Type 0} (formats : List A) (n m position : ℕ)
    → position ≤ length formats
    → is_all formats (n + m) position
      ≡ (is_all formats n position && is_all formats m (fetch formats n position).0)
unfolding fetch
is_all_twice formats n m position small = ground (arith, small)

-- With both pointers given: two calls of Next give together the formats that one call for both numbers
-- gives, and leave the cursor where it does; the one call answers S_OK just where both of the two do,
-- and S_FALSE otherwise; and Skip moves the cursor as Next does, with the same answer.
pub next_twice :
    {A : Type 0} (formats : List A) (n m position : ℕ)
    → position ≤ length formats
    → (p q : ℕ) × (items more : List A) × (all all' : Bool) × (next formats n false false position
        ≡ (p, ok (items, all)))
      × (next formats m false false p ≡ (q, ok (more, all')))
      × (next formats (n + m) false false position ≡ (q, ok (items ++ more, all && all')))
      × (skip formats n position ≡ (p, all))
next_twice formats n m position small =
    let p = (fetch formats n position).0 in
    let both = is_all_twice formats n m position small in
    let whole = fetch_twice formats n m position small in
    (
      p,
      (fetch formats m p).0,
      (fetch formats n position).1,
      (fetch formats m p).1,
      is_all formats n position,
      is_all formats m p,
      next-lem formats n position,
      next-lem formats m p,
      next-lem formats (n + m) position ∙ (λ i. ((whole i).0, ok ((whole i).1, both i))),
      skip-lem formats n position,
    )
