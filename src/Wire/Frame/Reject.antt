-- ===== src/Wire/Frame/Reject.antt =====
-- What the frame reader accepts: only bytes that `write_frame` writes, so every frame has one
-- spelling and a bounded payload.
use mathlib.Core.List.{append_assoc}
use clip_ferry.Common.{
  ℕ, ◌+◌, ◌^◌, ◌≤◌, ◌<◌, ◌≡◌, ◌∙◌, ap, sym, subst, Option, some, List, [], ◌∷◌, ◌++◌, length, take,
  drop, arith, All, bytes_eq_iff, drop-drop, length-take, length-drop, take-append-drop, drop_all,
  All-take, All-drop, All-left, All-right,
}
use clip_ferry.Common.Bytes.{
  IsByte, to_be_bytes, from_be_bytes, field_at-some, to-from_be_bytes, from_be_bytes-lt,
}
use clip_ferry.Common.Result.{IoResult, ok, >>=-eq-ok}
use clip_ferry.Wire.Frame.{
  Frame, IsFrame, frame_header, max_frame_payload, write_frame, read_exact, read_header,
  read_frame_optional, magic, protocol_version,
}

-- The fields of a header, as the reader cuts them out.
abbrev version_of : List ℕ → List ℕ
version_of h = take 2 (drop 4 h)

abbrev opcode_of : List ℕ → List ℕ
opcode_of h = take 2 (drop 6 h)

abbrev id_of : List ℕ → List ℕ
id_of h = take 8 (drop 8 h)

abbrev number_of : List ℕ → List ℕ
number_of h = take 4 (drop 16 h)

read_header_fields :
    (h : List ℕ) (o i n : ℕ)
    → length h ≡ 20
    → read_header h ≡ ok (o, i, n)
    → (take 4 h ≡ magic)
      × (from_be_bytes (version_of h) ≡ protocol_version)
      × (from_be_bytes (opcode_of h) ≡ o)
      × (from_be_bytes (id_of h) ≡ i)
      × (from_be_bytes (number_of h) ≡ n)
      × (n ≤ max_frame_payload)
unfolding read_header
read_header_fields h o i n e r = ground (
  arith,
  bytes_eq_iff (take 4 h) magic,
  field_at-some 2 4 h (omega arith),
  field_at-some 2 6 h (omega arith),
  field_at-some 8 8 h (omega arith),
  field_at-some 4 16 h (omega arith),
)

-- A header is its fields, one after the other.
header_parts :
    (h : List ℕ)
    → length h ≡ 20
    → h ≡ take 4 h ++ (version_of h ++ (opcode_of h ++ (id_of h ++ (number_of h ++ []))))
header_parts h e = sym (
    ap (λ l. take 4 h ++ l)
      (ap (λ l. version_of h ++ l)
          (ap (λ l. opcode_of h ++ l)
              (ap (λ l. id_of h ++ l)
                  (ap (λ l. number_of h ++ l) (sym (drop_all 20 h (omega arith))) ∙ part 4 16)
                ∙ part 8 8)
            ∙ part 2 6)
        ∙ part 2 4)
    ∙ take-append-drop 4 h)
  where
    part : (n s : ℕ) → take n (drop s h) ++ drop (s + n) h ≡ drop s h
    part n s =
        ap (λ l. take n (drop s h) ++ l) (sym (drop-drop s n h)) ∙ take-append-drop n (drop s h)

field_length : (n s : ℕ) (h : List ℕ) → s + n ≤ length h → length (take n (drop s h)) ≡ n
field_length n s h le = omega (arith, length-take n (drop s h), length-drop s h)

field_IsByte : (n s : ℕ) (h : List ℕ) → All IsByte h → All IsByte (take n (drop s h))
field_IsByte n s h b = All-take IsByte n (drop s h) (All-drop IsByte s h b)

field_digits :
    (n s : ℕ) (h : List ℕ) {v : ℕ}
    → s + n ≤ length h
    → All IsByte h
    → from_be_bytes (take n (drop s h)) ≡ v
    → take n (drop s h) ≡ to_be_bytes n v
field_digits n s h le b e =
    rw (← e)
      (sym (to-from_be_bytes n (take n (drop s h)) (field_length n s h le) (field_IsByte n s h b)))

-- An accepted header is the one that `write_frame` sends for the fields read from it.
read_header_canonical :
    (h : List ℕ) (f : Frame) (n : ℕ)
    → length h ≡ 20
    → All IsByte h
    → read_header h ≡ ok (f.opcode, f.request_id, n)
    → (h ≡ frame_header f n)
      × (f.opcode < 256 ^ 2)
      × (f.request_id < 256 ^ 8)
      × (n ≤ max_frame_payload)
unfolding frame_header
read_header_canonical h f n e b r =
    let (m, v, o, i, p, le) = read_header_fields h f.opcode f.request_id n e r in
    (
      header_parts h e
          ∙ rw (
            m,
            field_digits 2 4 h (omega arith) b v,
            field_digits 2 6 h (omega arith) b o,
            field_digits 8 8 h (omega arith) b i,
            field_digits 4 16 h (omega arith) b p,
          ),
      rw (← o) (
          from_be_bytes-lt 2 (opcode_of h) (field_length 2 6 h (omega arith))
            (field_IsByte 2 6 h b)),
      rw (← i)
          (from_be_bytes-lt 8 (id_of h) (field_length 8 8 h (omega arith)) (field_IsByte 8 8 h b)),
      le,
    )

read_exact_parts :
    (n : ℕ) (s : List ℕ) {a r : List ℕ} → read_exact n s ≡ ok (a, r) → (s ≡ a ++ r) × (length a ≡ n)
unfolding read_exact
read_exact_parts n s e = ground (arith, take-append-drop n s, length-take n s)

same_frame :
    (h : IoResult (ℕ × ℕ × ℕ)) (x : IoResult (List ℕ × List ℕ)) (o i n : ℕ) (p r rest : List ℕ)
    (f : Frame)
    → h ≡ ok (o, i, n)
    → x ≡ ok (p, r)
    → ◌≡◌ {A = IoResult (Option Frame × List ℕ)}
        (ok (some (record { opcode = o; request_id = i; payload = p }), r))
        (ok (some f, rest))
    → (h ≡ ok (f.opcode, f.request_id, n)) × (x ≡ ok (f.payload, rest))
same_frame h x o i n p r rest f a b c = ground arith

read_frame_parts :
    (b : ℕ) (s : List ℕ) (f : Frame) (rest : List ℕ)
    → read_frame_optional (b ∷ s) ≡ ok (some f, rest)
    → (tail s' : List ℕ) × (n : ℕ) × (read_exact 19 s ≡ ok (tail, s'))
      × (read_header (b ∷ tail) ≡ ok (f.opcode, f.request_id, n))
      × (read_exact n s' ≡ ok (f.payload, rest))
unfolding read_frame_optional
read_frame_parts b s f rest e =
    let ((tail, s'), e₁, k₁) = >>=-eq-ok (read_exact 19 s) _ e in
    let ((o, i, n), e₂, k₂) = >>=-eq-ok (read_header (b ∷ tail)) _ k₁ in
    let ((p, r), e₃, k₃) = >>=-eq-ok (read_exact n s') _ k₂ in
    let (e₄, e₅) =
      same_frame (read_header (b ∷ tail)) (read_exact n s') o i n p r rest f e₂ e₃ k₃ in
    (tail, s', n, e₁, e₄, e₅)

module _ (c n : ℕ) (s tail s' rest : List ℕ) (f : Frame) (b : All IsByte (c ∷ s))
    (s_eq : s ≡ tail ++ s') (tail_length : length tail ≡ 19) (s'_eq : s' ≡ f.payload ++ rest)
    (payload_length : length f.payload ≡ n)
    (r : read_header (c ∷ tail) ≡ ok (f.opcode, f.request_id, n)) where
  tail_bytes : All IsByte (tail ++ s')
  tail_bytes = subst (All IsByte) s_eq b.1

  header_facts :
      (c ∷ tail ≡ frame_header f (length f.payload))
      × (f.opcode < 256 ^ 2)
      × (f.request_id < 256 ^ 8)
      × (length f.payload ≤ max_frame_payload)
  header_facts = rw payload_length (
      read_header_canonical (c ∷ tail) f n (omega arith) (b.0, All-left IsByte tail s' tail_bytes)
        r)

  payload_bytes : All IsByte f.payload
  payload_bytes =
      All-left IsByte f.payload rest
        (subst (All IsByte) s'_eq (All-right IsByte tail s' tail_bytes))

  stream_eq : c ∷ s ≡ (frame_header f (length f.payload) ++ f.payload) ++ rest
  stream_eq =
      ap (◌∷◌ c) (s_eq ∙ ap (◌++◌ tail) s'_eq)
      ∙ ap (λ l. l ++ (f.payload ++ rest)) header_facts.0
      ∙ sym (append_assoc (frame_header f (length f.payload)) f.payload rest)

-- Every frame that the reader takes from a connection is in the range of its fields' types, fits
-- the payload limit, and stood there exactly as `write_frame` sends it, followed by what is left.
pub read_frame_canonical :
    (stream rest : List ℕ) (f : Frame)
    → All IsByte stream
    → read_frame_optional stream ≡ ok (some f, rest)
    → IsFrame f
      × (length f.payload ≤ max_frame_payload)
      × (write_frame [] f ≡ ok (frame_header f (length f.payload) ++ f.payload))
      × (stream ≡ (frame_header f (length f.payload) ++ f.payload) ++ rest)
unfolding write_frame
read_frame_canonical [] rest f b e = unfold read_frame_optional in cc
read_frame_canonical (c ∷ s) rest f b e =
    let (tail, s', n, e₁, e₂, e₃) = read_frame_parts c s f rest e in
    let (s_eq, tail_length) = read_exact_parts 19 s e₁ in
    let (s'_eq, payload_length) = read_exact_parts n s' e₃ in
    let (_, o, i, le) =
      header_facts c n s tail s' rest f b s_eq tail_length s'_eq payload_length e₂ in
    (
      record {
        opcode_u16 = o;
        request_id_u64 = i;
        payload_u8 = payload_bytes c n s tail s' rest f b s_eq tail_length s'_eq payload_length e₂;
      },
      le,
      ground arith,
      stream_eq c n s tail s' rest f b s_eq tail_length s'_eq payload_length e₂,
    )
