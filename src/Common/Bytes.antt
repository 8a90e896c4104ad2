-- ===== src/Common/Bytes.antt =====
-- Big-endian numbers and fixed fields of a byte string: `to_be_bytes`, `from_be_bytes`, and the
-- slices that every decoder of the program cuts out (src/clipboard/secure_transfer.rs).
use clip_ferry.Common.Tests.{leb, if◌then◌else◌, le→leb}
use clip_ferry.Common.Lists.{
  length, get_elem?, take, drop, All, length-append, take-append, drop-append_add, length-take,
  length-drop, take-append-drop, drop-drop, All-take, All-drop, All-append, All-left, All-right,
}
use Prim.Native.Nat.{ℕ, zero, suc, ◌+◌, ◌-◌, ◌*◌, ◌/◌, ◌%◌, ◌^◌, ◌≤◌, ◌<◌}
use mathlib.Core.Path.{◌≡◌, refl, ap, sym, subst, ◌∙◌}
use mathlib.Core.List.{
  List, [], ◌∷◌, ◌++◌, reverse, reverse-cons, reverse-reverse, append_assoc, append-nil,
}
use mathlib.Core.Option.{Option, none, some}
use native.Mathlib.Nat.{pow-succ'}
use native.Mathlib.Omega.{arith}

abbrev pub IsByte : ℕ → Type 0
IsByte b = b < 256

-- The last `w` bytes of `v`, highest first.
unfoldable pub to_be_bytes : ℕ → ℕ → List ℕ
to_be_bytes zero v = []
to_be_bytes (suc w) v = to_be_bytes w (v / 256) ++ ((v % 256) ∷ [])

pub from_be : ℕ → List ℕ → ℕ
from_be acc [] = acc
from_be acc (b ∷ bs) = from_be (acc * 256 + b) bs

unfoldable pub from_be_bytes : List ℕ → ℕ
unfolding from_be
from_be_bytes bs = from_be 0 bs

pub length-to_be_bytes : (w v : ℕ) → length (to_be_bytes w v) ≡ w
unfolding to_be_bytes
length-to_be_bytes zero v = refl
length-to_be_bytes (suc w) v = omega (
  arith,
  length-append (to_be_bytes w (v / 256)) ((v % 256) ∷ []),
  length-to_be_bytes w (v / 256),
)

pub to_be_bytes-IsByte : (w v : ℕ) → All IsByte (to_be_bytes w v)
unfolding to_be_bytes
to_be_bytes-IsByte zero v = tt
to_be_bytes-IsByte (suc w) v =
    All-append IsByte (to_be_bytes w (v / 256)) ((v % 256) ∷ []) (to_be_bytes-IsByte w (v / 256))
      (omega arith)

from_be-snoc :
    (acc : ℕ) (bs : List ℕ) (b : ℕ) → from_be acc (bs ++ (b ∷ [])) ≡ from_be acc bs * 256 + b
unfolding from_be
from_be-snoc acc [] b = refl
from_be-snoc acc (c ∷ bs) b = from_be-snoc (acc * 256 + c) bs b

-- Below 256 ^ w the digits of a number give it back.
pub from-to_be_bytes : (w v : ℕ) → v < 256 ^ w → from_be_bytes (to_be_bytes w v) ≡ v
unfolding from_be_bytes to_be_bytes from_be
from-to_be_bytes zero v h = omega arith
from-to_be_bytes (suc w) v h =
    from_be-snoc 0 (to_be_bytes w (v / 256)) (v % 256)
    ∙ (omega (arith, from-to_be_bytes w (v / 256) (grind arith)))

to_be_bytes-snoc :
    (w x b : ℕ) (bs : List ℕ)
    → b < 256
    → to_be_bytes w x ≡ bs
    → to_be_bytes (suc w) (x * 256 + b) ≡ bs ++ (b ∷ [])
unfolding to_be_bytes
to_be_bytes-snoc w x b bs h e =
    let q : (x * 256 + b) / 256 ≡ x = omega arith in
    let r : (x * 256 + b) % 256 ≡ b = omega arith in rw (q, r, e)

pub length-reverse : (bs : List ℕ) → length (reverse bs) ≡ length bs
length-reverse [] = refl
length-reverse (b ∷ bs) =
    omega
      (arith, ap length (reverse-cons b bs), length-append (reverse bs) (b ∷ []), length-reverse bs)

to-from_be-reverse :
    (acc : ℕ) (bs : List ℕ)
    → All IsByte (reverse bs)
    → to_be_bytes (length bs) (from_be acc (reverse bs)) ≡ reverse bs
to-from_be-reverse acc [] h = unfold to_be_bytes in refl
to-from_be-reverse acc (b ∷ bs) h =
    let h' : All IsByte (reverse bs ++ (b ∷ [])) = subst (All IsByte) (reverse-cons b bs) h in
    subst (λ l. to_be_bytes (suc (length bs)) (from_be acc l) ≡ l) (sym (reverse-cons b bs))
      (rw (from_be-snoc acc (reverse bs) b) (
        to_be_bytes-snoc (length bs) (from_be acc (reverse bs)) b (reverse bs)
          (All-right IsByte (reverse bs) (b ∷ []) h').0
          (to-from_be-reverse acc bs (All-left IsByte (reverse bs) (b ∷ []) h'))))

-- Bytes are the digits of the number that they are read as.
pub to-from_be_bytes :
    (n : ℕ) (bs : List ℕ) → length bs ≡ n → All IsByte bs → to_be_bytes n (from_be_bytes bs) ≡ bs
unfolding from_be_bytes
to-from_be_bytes n bs e h =
    subst (λ l. to_be_bytes n (from_be 0 l) ≡ l) (reverse-reverse bs)
      (subst (λ m. to_be_bytes m (from_be 0 (reverse (reverse bs))) ≡ reverse (reverse bs))
        (length-reverse bs ∙ e)
        (to-from_be-reverse 0 (reverse bs) (subst (All IsByte) (sym (reverse-reverse bs)) h)))

-- `bytes.get(start..start + n)`, as the decoders use it.
unfoldable pub field_at : ℕ → List ℕ → ℕ → Option (List ℕ)
field_at n bs start = if leb (start + n) (length bs) then some (take n (drop start bs)) else none

pub field_at-here : (a r : List ℕ) (n : ℕ) → length a ≡ n → field_at n (a ++ r) 0 ≡ some a
unfolding field_at
field_at-here a r n e =
    rw (← e, le→leb (0 + length a) (length (a ++ r)) (omega (arith, length-append a r)))
      (ap some (take-append a r))

pub field_at-skip :
    (a r : List ℕ) (n s k : ℕ) → length a ≡ k → k ≤ s → field_at n (a ++ r) s ≡ field_at n r (s - k)
unfolding field_at
field_at-skip a r n s k e h =
    let past : drop s (a ++ r) ≡ drop (s - k) r =
      (ap (λ m. drop m (a ++ r)) (let e' : s ≡ length a + (s - k) = omega arith in e')
        ∙ drop-append_add a r (s - k)) in
    ground (arith, past, length-append a r)

pub be_here : (w v : ℕ) (r : List ℕ) → field_at w (to_be_bytes w v ++ r) 0 ≡ some (to_be_bytes w v)
be_here w v r = field_at-here (to_be_bytes w v) r w (length-to_be_bytes w v)

pub be_end : (w v : ℕ) → field_at w (to_be_bytes w v) 0 ≡ some (to_be_bytes w v)
be_end w v = ap (λ l. field_at w l 0) (sym (append-nil (to_be_bytes w v))) ∙ be_here w v []

pub be_skip :
    (w v : ℕ) (r : List ℕ) (n s : ℕ)
    → w ≤ s
    → field_at n (to_be_bytes w v ++ r) s ≡ field_at n r (s - w)
be_skip w v r n s h = field_at-skip (to_be_bytes w v) r n s w (length-to_be_bytes w v) h

-- What `field_at` cuts out has the length that was asked for.
pub length-field_at :
    (n start : ℕ) (bs : List ℕ) {field : List ℕ}
    → field_at n bs start ≡ some field
    → length field ≡ n
unfolding field_at
length-field_at n start bs h = ground (arith, length-take n (drop start bs), length-drop start bs)

pub field_at-IsByte :
    (n start : ℕ) (bs : List ℕ) {field : List ℕ}
    → field_at n bs start ≡ some field
    → All IsByte bs
    → All IsByte field
unfolding field_at
field_at-IsByte n start bs h b =
    ground (arith, All-take IsByte n (drop start bs) (All-drop IsByte start bs b))

-- A field and what follows it.
pub field_split :
    (n start : ℕ) (bs : List ℕ) {field : List ℕ}
    → field_at n bs start ≡ some field
    → drop start bs ≡ field ++ drop (start + n) bs
unfolding field_at
field_split n start bs h = ground (arith, take-append-drop n (drop start bs), drop-drop start n bs)

pub field_at-some :
    (n start : ℕ) (bs : List ℕ)
    → start + n ≤ length bs
    → field_at n bs start ≡ some (take n (drop start bs))
unfolding field_at
field_at-some n start bs h = ground arith

digit_bound :
    (x acc b p : ℕ) → b < 256 → x + 1 ≤ (acc * 256 + b + 1) * p → x + 1 ≤ (acc + 1) * (256 * p)
digit_bound x acc b p h le =
    let top : (acc * 256 + b + 1) * p ≤ (acc * 256 + 256) * p = grind arith in omega arith

from_be-lt :
    (acc : ℕ) (bs : List ℕ) → All IsByte bs → from_be acc bs + 1 ≤ (acc + 1) * 256 ^ length bs
unfolding from_be
from_be-lt acc [] h = omega arith
from_be-lt acc (b ∷ bs) h =
    let e : 256 ^ suc (length bs) ≡ 256 * 256 ^ length bs = pow-succ' 256 (length bs) in
    rw e (
      digit_bound (from_be (acc * 256 + b) bs) acc b (256 ^ length bs) h.0
        (from_be-lt (acc * 256 + b) bs h.1))

pub from_be_bytes-lt :
    (n : ℕ) (bs : List ℕ) → length bs ≡ n → All IsByte bs → from_be_bytes bs < 256 ^ n
unfolding from_be_bytes
from_be_bytes-lt n bs e h = rw (← e) (omega (arith, from_be-lt 0 bs h))

-- Fields laid out one after the other.
abbrev pub concat : List (List ℕ) → List ℕ
concat [] = []
concat (f ∷ fs) = f ++ concat fs

-- Where the field number `i` begins.
abbrev pub offset_of : List (List ℕ) → ℕ → ℕ
offset_of [] i = 0
offset_of (f ∷ fs) zero = 0
offset_of (f ∷ fs) (suc i) = length f + offset_of fs i

-- A decoder that cuts at a field's place gets the field.
pub field_at-concat :
    (fs : List (List ℕ)) (i n k : ℕ) (rest f : List ℕ)
    → get_elem? fs i ≡ some f
    → offset_of fs i ≡ k
    → length f ≡ n
    → field_at n (concat fs ++ rest) k ≡ some f
field_at-concat [] i n k rest f h o e = cc
field_at-concat (g ∷ fs) zero n k rest f h o e =
    let same : g ≡ f = cc in
    rw (← o, append_assoc g (concat fs) rest, same) (field_at-here f (concat fs ++ rest) n e)
field_at-concat (g ∷ fs) (suc i) n k rest f h o e =
    rw (← o, append_assoc g (concat fs) rest)
      (field_at-skip g (concat fs ++ rest) n (length g + offset_of fs i) (length g) refl
          (omega arith)
        ∙ field_at-concat fs i n (length g + offset_of fs i - length g) rest f h (omega arith) e)

pub field_at-concat_end :
    (fs : List (List ℕ)) (i n k : ℕ) (f : List ℕ)
    → get_elem? fs i ≡ some f
    → offset_of fs i ≡ k
    → length f ≡ n
    → field_at n (concat fs) k ≡ some f
field_at-concat_end fs i n k f h o e =
    ap (λ l. field_at n l k) (sym (append-nil (concat fs))) ∙ field_at-concat fs i n k [] f h o e
