-- ===== src/Wire/Frame/RoundTrip.antt =====
-- A frame that was written is read back, and every frame that is read was written so.
use clip_ferry.Common.{
  ℕ, ◌-◌, ◌≤◌, ◌≡◌, ◌∙◌, refl, ap, some, List, [], ◌∷◌, ◌++◌, length, take, drop, take-append,
  drop-append, length-append, bytes_eq_refl, arith,
}
use mathlib.Core.List.{append_assoc}
use clip_ferry.Common.Bytes.{
  to_be_bytes, field_at, be_here, be_skip, field_at-skip, from-to_be_bytes, length-to_be_bytes,
}
use clip_ferry.Common.Result.{ok}
use clip_ferry.Wire.Frame.{
  Frame, IsFrame, frame_header, max_frame_payload, write_frame, read_exact, read_header,
  read_frame_optional, magic, protocol_version,
}

module _ (f : Frame) (n : ℕ) where
  number_part : List ℕ
  number_part = to_be_bytes 4 n ++ []

  id_part : List ℕ
  unfolding number_part
  id_part = to_be_bytes 8 f.request_id ++ number_part

  opcode_part : List ℕ
  unfolding id_part
  opcode_part = to_be_bytes 2 f.opcode ++ id_part

  version_part : List ℕ
  unfolding opcode_part
  version_part = to_be_bytes 2 protocol_version ++ opcode_part

  magic_field : take 4 (frame_header f n) ≡ magic
  unfolding frame_header
  magic_field = refl

  after_magic :
      (k s : ℕ) → 4 ≤ s → field_at k (frame_header f n) s ≡ field_at k version_part (s - 4)
  unfolding frame_header version_part
  after_magic k s h = field_at-skip magic version_part k s 4 refl h

  version_field : field_at 2 (frame_header f n) 4 ≡ some (to_be_bytes 2 protocol_version)
  unfolding version_part
  version_field = after_magic 2 4 (omega arith) ∙ be_here 2 protocol_version opcode_part

  after_version :
      (k s : ℕ) → 6 ≤ s → field_at k (frame_header f n) s ≡ field_at k opcode_part (s - 4 - 2)
  unfolding version_part
  after_version k s h =
      after_magic k s (omega arith) ∙ be_skip 2 protocol_version opcode_part k (s - 4) (omega arith)

  opcode_field : field_at 2 (frame_header f n) 6 ≡ some (to_be_bytes 2 f.opcode)
  unfolding opcode_part
  opcode_field = after_version 2 6 (omega arith) ∙ be_here 2 f.opcode id_part

  after_opcode :
      (k s : ℕ) → 8 ≤ s → field_at k (frame_header f n) s ≡ field_at k id_part (s - 4 - 2 - 2)
  unfolding opcode_part
  after_opcode k s h =
      after_version k s (omega arith) ∙ be_skip 2 f.opcode id_part k (s - 4 - 2) (omega arith)

  id_field : field_at 8 (frame_header f n) 8 ≡ some (to_be_bytes 8 f.request_id)
  unfolding id_part
  id_field = after_opcode 8 8 (omega arith) ∙ be_here 8 f.request_id number_part

  number_field : field_at 4 (frame_header f n) 16 ≡ some (to_be_bytes 4 n)
  unfolding id_part number_part
  number_field =
      after_opcode 4 16 (omega arith)
      ∙ be_skip 8 f.request_id number_part 4 8 (omega arith)
      ∙ be_here 4 n []

  read_header-frame_header :
      IsFrame f
      → n ≤ max_frame_payload
      → read_header (frame_header f n) ≡ ok (f.opcode, f.request_id, n)
  unfolding read_header
  read_header-frame_header v h =
      rw (version_field, opcode_field, id_field, number_field)
        (ground (
          arith,
          magic_field,
          bytes_eq_refl magic,
          from-to_be_bytes 2 protocol_version (omega arith),
          from-to_be_bytes 2 f.opcode v.opcode_u16,
          from-to_be_bytes 8 f.request_id v.request_id_u64,
          from-to_be_bytes 4 n (omega arith),
        ))

pub length-frame_header : (f : Frame) (n : ℕ) → length (frame_header f n) ≡ 20
unfolding frame_header
length-frame_header f n = simp (length-append, length-to_be_bytes)

pub read_exact-append : (a r : List ℕ) (n : ℕ) → length a ≡ n → read_exact n (a ++ r) ≡ ok (a, r)
unfolding read_exact
read_exact-append a r n e =
    rw (← e) (ground (arith, length-append a r, take-append a r, drop-append a r))

header_tail : Frame → ℕ → List ℕ
header_tail f n = drop 1 (frame_header f n)

read_frame-header :
    (f : Frame) (rest : List ℕ)
    → IsFrame f
    → length f.payload ≤ max_frame_payload
    → read_frame_optional (frame_header f (length f.payload) ++ (f.payload ++ rest))
      ≡ ok (some f, rest)
unfolding read_frame_optional header_tail
read_frame-header f rest v h =
    rw (split, first, header, read_exact-append f.payload rest (length f.payload) refl)
  where
    split_header : frame_header f (length f.payload) ≡ b'C' ∷ header_tail f (length f.payload)
    split_header = unfold frame_header in refl

    split :
        frame_header f (length f.payload) ++ (f.payload ++ rest)
        ≡ b'C' ∷ (header_tail f (length f.payload) ++ (f.payload ++ rest))
    split = ap (λ l. l ++ (f.payload ++ rest)) split_header

    first :
        read_exact 19 (header_tail f (length f.payload) ++ (f.payload ++ rest))
        ≡ ok (header_tail f (length f.payload), f.payload ++ rest)
    first =
        read_exact-append (header_tail f (length f.payload)) (f.payload ++ rest) 19
          (omega (arith, ap length split_header, length-frame_header f (length f.payload)))

    header :
        read_header (b'C' ∷ header_tail f (length f.payload))
        ≡ ok (f.opcode, f.request_id, length f.payload)
    header = rw (← split_header) (read_header-frame_header f (length f.payload) v h)

-- What a successful `write_frame` has sent.
write_frame_sent :
    (f : Frame) (bytes : List ℕ)
    → write_frame [] f ≡ ok bytes
    → (length f.payload ≤ max_frame_payload)
      × (bytes ≡ frame_header f (length f.payload) ++ f.payload)
unfolding write_frame
write_frame_sent f bytes e = ground arith

-- What `write_frame` sends is read back as the frame, with whatever follows it left over.
pub read_frame-write_frame :
    (f : Frame) (bytes rest : List ℕ)
    → IsFrame f
    → write_frame [] f ≡ ok bytes
    → read_frame_optional (bytes ++ rest) ≡ ok (some f, rest)
read_frame-write_frame f bytes rest v e =
    let (fits, sent) = write_frame_sent f bytes e in
    rw (sent, append_assoc (frame_header f (length f.payload)) f.payload rest)
      (read_frame-header f rest v fits)
