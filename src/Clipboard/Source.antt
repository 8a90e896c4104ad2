-- ===== src/Clipboard/Source.antt =====
-- `ReadAtSource` and `MemorySource` of src/clipboard/source.rs, and the Windows error codes that
-- the clipboard's objects answer with.
use clip_ferry.Common.{
  ℕ, ◌-◌, ◌≤◌, ◌<◌, ◌≡◌, ◌∙◌, inl, inr, refl, sym, min, List, [], length, take, drop, leb,
  if◌then◌else◌, arith, Bool-cases, length-take, length-drop, take-length-take,
}
use clip_ferry.Common.Result.{Result, ok}

pub data HresultError : Type 0 where
  e_invalidarg e_unexpected e_pointer e_notimpl error_cancelled dv_e_formatetc : HresultError
  e_accessdenied error_timeout error_read_fault : HresultError
  stg_e_invalidpointer stg_e_invalidfunction stg_e_accessdenied : HresultError

abbrev pub ComResult : Type 0 → Type 0
ComResult = Result HresultError

-- `read_at`: an offset and the length of the buffer give the bytes written to its front. A source
-- that reports more than the buffer holds is a list longer than that.
abbrev pub ReadAtSource : Type 0
ReadAtSource = ℕ → ℕ → ComResult (List ℕ)

-- `MemorySource::read_at`
unfoldable pub memory_read_at : List ℕ → ReadAtSource
memory_read_at bytes offset buffer =
    if leb (length bytes) offset
    then ok []
    else ok (take (min (length bytes - offset) buffer) (drop offset bytes))

-- The source gives a piece of the content from the offset on, of the size it likes, and an empty
-- one only at the end.
pub record GivesPiece (content : List ℕ) (offset buffer : ℕ) (r : ComResult (List ℕ)) : Type 0 where
  pub piece : List ℕ
  pub given : r ≡ ok piece
  pub fits : length piece ≤ buffer
  pub in_content : piece ≡ take (length piece) (drop offset content)
  pub progress : length piece ≡ 0 → 0 < buffer → length content ≤ offset

abbrev pub Serves : List ℕ → ReadAtSource → Type 0
Serves content source =
    (offset buffer : ℕ) → GivesPiece content offset buffer (source offset buffer)

-- A source in memory serves its bytes.
pub memory_read_at-Serves : (bytes : List ℕ) → Serves bytes (memory_read_at bytes)
unfolding memory_read_at
memory_read_at-Serves bytes offset buffer = elim (Bool-cases (leb (length bytes) offset)) [
  | inl past ↦ record {
    piece = [];
    given = rw past refl;
    fits = omega arith;
    in_content = refl;
    progress = λ _ _. ground arith;
  }
  | inr inside ↦
      let count = min (length bytes - offset) buffer in
      let size : length (take count (drop offset bytes)) ≡ count =
        length-take count (drop offset bytes) ∙ rw (length-drop offset bytes) (omega arith) in
      record {
        piece = take count (drop offset bytes);
        given = rw inside refl;
        fits = rw size (omega arith);
        in_content = sym (take-length-take count (drop offset bytes));
        progress = λ empty room. absurd (ground (arith, size));
      }
]
