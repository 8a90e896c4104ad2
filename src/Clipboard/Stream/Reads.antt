-- ===== src/Clipboard/Stream/Reads.antt =====
-- Reads of a `VirtualStream` give the content of its source, however the source cuts it up.
use clip_ferry.Common.{
  ℕ, ◌+◌, ◌-◌, ◌≤◌, ◌<◌, ◌≡◌, ◌∙◌, ◌^◌, ◌⊎◌, inl, inr, refl, sym, ap, suc, zero, min, false, List,
  [], ◌++◌, length, take, drop, leb, ltb, ◌==◌, arith, Bool-cases, length-take, length-drop,
  length-append, take_all, take-add, drop-drop, drop_all,
}
use clip_ferry.Common.Result.{ok, err}
use clip_ferry.Clipboard.Source.{ReadAtSource, Serves, stg_e_invalidfunction, ComResult}
use clip_ferry.Clipboard.Stream.{
  fill, advance, read_impl, ℤ, pos, negsuc, StreamSeek, seek_set, seek_cur, seek_end, seek_other,
  seek_base, displaced, move_to, seek_impl,
}

module _ (content : List ℕ) (source : ReadAtSource) (serves : Serves content source) where
  fill-lem :
      (position requested fuel : ℕ) (got : List ℕ)
      → length content < 2 ^ 64
      → position < 2 ^ 64
      → length got ≤ requested
      → requested ≤ length got + fuel
      → got ≡ take (length got) (drop position content)
      → fill source position requested fuel got ≡ ok (take requested (drop position content))
  unfolding fill
  fill-lem position requested zero got small small' le enough same =
      let full : length got ≡ requested = omega (arith, le, enough) in
      ap ok (same ∙ ap (λ n. take n (drop position content)) full)
  fill-lem position requested (suc fuel) got small small' le enough same =
      let rest : List ℕ = drop position content in
      let g = serves (position + length got) (requested - length got) in
      let inside : length got ≤ length content - position =
        let size : length got ≡ min (length got) (length content - position) =
          ap length same
          ∙ length-take (length got) rest
          ∙ ap (min (length got)) (length-drop position content) in
        omega (arith, size) in
      elim (Bool-cases (ltb (length got) requested)) [
        | inr full ↦
            let all : length got ≡ requested = ground arith in
            rw full (ap ok (same ∙ ap (λ n. take n rest) all))
        | inl more ↦
            let fits : leb (2 ^ 64) (position + length got) ≡ false = ground arith in
            let room : ltb (requested - length got) (length g.piece) ≡ false =
              ground (arith, g.fits) in
            elim (Bool-cases (length g.piece == 0)) [
              | inl at_end ↦
                  let past : length content ≤ position + length got =
                    g.progress (ground arith) (ground arith) in
                  let short : length rest ≤ length got =
                    rw (length-drop position content) (omega (arith, past)) in
                  rw (more, fits, g.given, room, at_end)
                    (ap ok (
                      same
                      ∙ take_all (length got) rest short
                      ∙ sym (take_all requested rest (omega (arith, short, le)))))
              | inr some_bytes ↦
                  let joined : length (got ++ g.piece) ≡ length got + length g.piece =
                    length-append got g.piece in
                  let piece_of : g.piece ≡ take (length g.piece) (drop (length got) rest) =
                    g.in_content
                    ∙ ap (take (length g.piece)) (sym (drop-drop position (length got) content)) in
                  let same' : got ++ g.piece ≡ take (length (got ++ g.piece)) rest =
                    ap (λ xs. xs ++ g.piece) same
                    ∙ ap (λ ys. take (length got) rest ++ ys) piece_of
                    ∙ sym (take-add (length got) (length g.piece) rest)
                    ∙ ap (λ n. take n rest) (sym joined) in
                  rw (more, fits, g.given, room, some_bytes)
                    (fill-lem position requested fuel (got ++ g.piece) small small' (ground arith)
                      (ground arith) same')
            ]
      ]

  -- A read of the stream gives the content of its source from the position on, as many bytes as asked
  -- for or as there are, however small the pieces are that the source gives, and moves the
  -- position behind them.
  pub read_impl_content :
      (requested position : ℕ)
      → length content < 2 ^ 64
      → position < 2 ^ 64
      → read_impl source false requested position ≡ (
        position + length (take requested (drop position content)),
        ok (take requested (drop position content)),
      )
  unfolding read_impl advance
  read_impl_content requested position small small' =
      let filled =
        fill-lem position requested requested [] small small' (omega arith) (omega arith) refl in
      let size : length (take requested (drop position content))
          ≡ min requested (length content - position) =
        length-take requested (drop position content)
        ∙ ap (min requested) (length-drop position content) in
      rw filled (ground (arith, size))

  rest_after :
      (n position : ℕ)
      → drop (position + length (take n (drop position content))) content
        ≡ drop n (drop position content)
  rest_after n position =
      let rest : List ℕ = drop position content in
      let size : length (take n rest) ≡ min n (length rest) = length-take n rest in
      let whole : length rest ≡ length content - position = length-drop position content in
      elim (Bool-cases (leb n (length rest))) [
        | inl enough ↦
            let count : length (take n rest) ≡ n = ground (arith, size) in
            ap (λ k. drop (position + k) content) count ∙ sym (drop-drop position n content)
        | inr short ↦
            drop_all (position + length (take n rest)) content (ground (arith, size, whole))
            ∙ sym (drop_all n rest (ground arith))
      ]

  -- Two reads in a row give together what one read of both lengths gives, and leave the stream at
  -- the same position.
  pub read_impl_twice :
      (n m position : ℕ)
      → length content < 2 ^ 64
      → position < 2 ^ 64
      → (a b : List ℕ) × (p q : ℕ) × (read_impl source false n position ≡ (p, ok a))
        × (read_impl source false m p ≡ (q, ok b))
        × (read_impl source false (n + m) position ≡ (q, ok (a ++ b)))
  read_impl_twice n m position small small' =
      let rest : List ℕ = drop position content in
      let a : List ℕ = take n rest in
      let p : ℕ = position + length a in
      let size : length a ≡ min n (length content - position) =
        length-take n rest ∙ ap (min n) (length-drop position content) in
      let b : List ℕ = take m (drop p content) in
      let both : take (n + m) rest ≡ a ++ b =
        take-add n m rest ∙ ap (λ ys. a ++ take m ys) (sym (rest_after n position)) in
      let length_both : position + length (take (n + m) rest) ≡ p + length b =
        let sum : length (take (n + m) rest) ≡ length a + length b =
          ap length both ∙ length-append a b in
        omega (arith, sum) in
      (
        a,
        b,
        p,
        p + length b,
        read_impl_content n position small small',
        read_impl_content m p small (omega (arith, size)),
        read_impl_content (n + m) position small small' ∙ rw (length_both, both) refl,
      )

-- Where a seek counts from.
pub data Base (position len : ℕ) : StreamSeek → ℕ → Type 0 where
  from_start : Base position len seek_set 0
  from_here : Base position len seek_cur position
  from_end : Base position len seek_end len

-- The sum of a number and a signed displacement, with -1 as `negsuc 0`.
abbrev pub IsMoved : ℕ → ℤ → ℕ → Type 0
IsMoved base (pos d) n = n ≡ base + d
IsMoved base (negsuc d) n = n + (1 + d) ≡ base

-- The sum that a seek goes to.
abbrev pub Target : ℕ → ℕ → ℤ → StreamSeek → ℕ → Type 0
Target len position d origin n =
    (base : ℕ) × Base position len origin base × IsMoved base d n × (n < 2 ^ 64)

abbrev pub SeekEnds : ℕ → ℤ → StreamSeek → ℕ → ℕ × ComResult ℕ → Type 0
SeekEnds len d origin position r =
    ((n : ℕ) × Target len position d origin n × (r ≡ (n, ok n)))
    ⊎ (((n : ℕ) → ¬ (Target len position d origin n)) × (r ≡ (position, err stg_e_invalidfunction)))

only_start : {position len : ℕ} → (b : ℕ) → Base position len seek_set b → b ≡ 0
only_start _ from_start = refl

only_here : {position len : ℕ} → (b : ℕ) → Base position len seek_cur b → b ≡ position
only_here _ from_here = refl

only_end : {position len : ℕ} → (b : ℕ) → Base position len seek_end b → b ≡ len
only_end _ from_end = refl

no-Base : {position len k b : ℕ} → ¬ (Base position len (seek_other k) b)
no-Base h = elim h [ ]

-- Where one number is the base, the seek goes to the sum, or fails where there is none.
move_to-SeekEnds :
    (len base position : ℕ) (d : ℤ) (origin : StreamSeek)
    → base < 2 ^ 64
    → Base position len origin base
    → ((b : ℕ) → Base position len origin b → b ≡ base)
    → SeekEnds len d origin position (move_to position (displaced base d))
unfolding move_to displaced
move_to-SeekEnds len base position (pos d) origin small from only =
    elim (Bool-cases (ltb (base + d) (2 ^ 64))) [
      | inl fits ↦ rw fits (inl (base + d, (base, from, refl, ground arith), refl))
      | inr beyond ↦
          rw beyond
            (inr (λ n (b, from', moved, in_range). let same = only b from' in ground arith, refl))
    ]
move_to-SeekEnds len base position (negsuc d) origin small from only =
    elim (Bool-cases (leb (suc d) base)) [
      | inl fits ↦
          rw fits (inl (base - suc d, (base, from, ground arith, omega (arith, small)), refl))
      | inr below ↦
          rw below
            (inr (λ n (b, from', moved, in_range). let same = only b from' in ground arith, refl))
    ]

-- Seek goes to the sum of the displacement and the number that the origin stands for, 0, the position or
-- the length, and answers with it, if there is such an origin and the sum is neither negative nor too
-- large for 64 bits; otherwise it fails, and the position is as it was.
pub seek_impl-SeekEnds :
    (len : ℕ) (d : ℤ) (origin : StreamSeek) (position : ℕ)
    → position < 2 ^ 64
    → len < 2 ^ 64
    → SeekEnds len d origin position (seek_impl len d origin position)
unfolding seek_impl seek_base
seek_impl-SeekEnds len d seek_set position small small' =
    move_to-SeekEnds len 0 position d seek_set (omega arith) from_start only_start
seek_impl-SeekEnds len d seek_cur position small small' =
    move_to-SeekEnds len position position d seek_cur small from_here only_here
seek_impl-SeekEnds len d seek_end position small small' =
    move_to-SeekEnds len len position d seek_end small' from_end only_end
seek_impl-SeekEnds len d (seek_other k) position small small' =
    inr (λ n (b, from, moved, in_range). no-Base from, refl)
