-- ===== src/Offer/Manifest/Entry.antt =====
-- One entry of a manifest is read back where it was written.
use clip_ferry.Common.{
  ℕ, ◌+◌, ◌/◌, ◌%◌, ◌^◌, ◌<◌, ◌≡◌, ◌∙◌, refl, ap, Bool, true, false, Option, none, some, List, [],
  ◌∷◌, ◌++◌, length, get_elem?, ltb, ◌==◌, bytes_eq, arith, length-append,
}
use clip_ferry.Common.Bytes.{
  to_be_bytes, from_be_bytes, field_at, concat, offset_of, field_at-concat, from-to_be_bytes,
  length-to_be_bytes,
}
use clip_ferry.Common.Fields.{byte_at, field_at-after}
use clip_ferry.Common.Result.{ok}
use clip_ferry.Wire.Frame.{array_at_io}
use clip_ferry.Offer.Paths.{any}
use clip_ferry.Offer.Tree.{FileTime}
use clip_ferry.Offer.Manifest.{
  OfferManifestEntry, Utf8, filetime_bits, filetime_from_bits, time_flag, time_flags, flagged_time,
  entry_fields, decode_entry,
}

-- Both halves fit 32 bits.
abbrev pub IsTime : Option FileTime → Type 0
IsTime none = Unit {0}
IsTime (some t) = (t.low < 2 ^ 32) × (t.high < 2 ^ 32)

-- What the types of the source say of an entry, and that its name is text.
pub record IsEntry (utf8 : Utf8) (e : OfferManifestEntry) : Type 0 where
  pub id_16 : length e.file_id ≡ 16
  pub size_64 : e.descriptor.size < 256 ^ 8
  pub attributes_32 : e.descriptor.attributes < 256 ^ 4
  pub created : IsTime e.descriptor.creation_time
  pub accessed : IsTime e.descriptor.last_access_time
  pub written : IsTime e.descriptor.last_write_time
  pub name_short : length (utf8.as_bytes e.descriptor.file_name) < 256 ^ 2
  pub name_text :
      utf8.from_utf8 (utf8.as_bytes e.descriptor.file_name) ≡ some e.descriptor.file_name

pub length-entry_fields :
    (utf8 : Utf8) (e : OfferManifestEntry)
    → length e.file_id ≡ 16
    → length (concat (entry_fields utf8 e)) ≡ 55 + length (utf8.as_bytes e.descriptor.file_name)
length-entry_fields utf8 e h =
    let d = e.descriptor in
    let name = utf8.as_bytes d.file_name in
    simp length-append (
      omega (
        arith,
        length-to_be_bytes 8 d.size,
        length-to_be_bytes 4 d.attributes,
        length-to_be_bytes 8 (filetime_bits d.creation_time),
        length-to_be_bytes 8 (filetime_bits d.last_access_time),
        length-to_be_bytes 8 (filetime_bits d.last_write_time),
        length-to_be_bytes 2 (length name),
      ))

filetime_bits-lt : (t : Option FileTime) → IsTime t → filetime_bits t < 256 ^ 8
unfolding filetime_bits
filetime_bits-lt none h = omega arith
filetime_bits-lt (some t) h = omega arith

filetime_from_bits-bits :
    (t : FileTime) → IsTime (some t) → filetime_from_bits (filetime_bits (some t)) ≡ t
unfolding filetime_bits filetime_from_bits
filetime_from_bits-bits t h = ground arith

-- A time is read back under a flag that says whether there is one.
flagged_time-bits :
    (present : Bool) (t : Option FileTime)
    → IsTime t
    → present ≡ (time_flag 1 t == 1)
    → flagged_time present (from_be_bytes (to_be_bytes 8 (filetime_bits t))) ≡ t
unfolding flagged_time
flagged_time-bits present none h e = rw e refl
flagged_time-bits present (some t) h e =
    rw (e, from-to_be_bytes 8 (filetime_bits (some t)) (filetime_bits-lt (some t) h))
      (ap some (filetime_from_bits-bits t h))

flag_creation :
    (c a w : Option FileTime)
    → ((time_flag 1 c + time_flag 2 a + time_flag 4 w) % 2 == 1) ≡ (time_flag 1 c == 1)
flag_creation c a w = ground arith

flag_access :
    (c a w : Option FileTime)
    → ((time_flag 1 c + time_flag 2 a + time_flag 4 w) / 2 % 2 == 1) ≡ (time_flag 1 a == 1)
flag_access c a w = ground arith

flag_write :
    (c a w : Option FileTime)
    → ((time_flag 1 c + time_flag 2 a + time_flag 4 w) / 4 % 2 == 1) ≡ (time_flag 1 w == 1)
flag_write c a w = ground arith

flags_small :
    (c a w : Option FileTime) → ltb (time_flag 1 c + time_flag 2 a + time_flag 4 w) 8 ≡ true
flags_small c a w = ground arith

-- A field of an entry that stands behind `before`.
entry_field :
    (utf8 : Utf8) (before after : List ℕ) (e : OfferManifestEntry) (i n k : ℕ) (f : List ℕ)
    → get_elem? (entry_fields utf8 e) i ≡ some f
    → offset_of (entry_fields utf8 e) i ≡ k
    → length f ≡ n
    → field_at n (before ++ (concat (entry_fields utf8 e) ++ after)) (length before + k) ≡ some f
entry_field utf8 before after e i n k f h o s =
    field_at-after before (concat (entry_fields utf8 e) ++ after) n k
    ∙ field_at-concat (entry_fields utf8 e) i n k after f h o s

-- An entry is read back, with the offset behind it, if its file is none of those seen.
pub decode_entry-here :
    (utf8 : Utf8) (before after : List ℕ) (seen : List (List ℕ)) (e : OfferManifestEntry)
    → IsEntry utf8 e
    → any (bytes_eq e.file_id) seen ≡ false
    → decode_entry utf8 (before ++ (concat (entry_fields utf8 e) ++ after)) seen (length before)
      ≡ ok (e, length before + 55 + length (utf8.as_bytes e.descriptor.file_name))
unfolding decode_entry array_at_io time_flags
decode_entry-here utf8 before after seen e v new =
    let d = e.descriptor in
    let name = utf8.as_bytes d.file_name in
    let field = entry_field utf8 before after e in
    let l_size = length-to_be_bytes 8 d.size in
    let l_attributes = length-to_be_bytes 4 d.attributes in
    let l_creation = length-to_be_bytes 8 (filetime_bits d.creation_time) in
    let l_access = length-to_be_bytes 8 (filetime_bits d.last_access_time) in
    let l_write = length-to_be_bytes 8 (filetime_bits d.last_write_time) in
    let l_name = length-to_be_bytes 2 (length name) in
    let id = v.id_16 in
    let first : field_at 16 (before ++ (concat (entry_fields utf8 e) ++ after)) (length before)
        ≡ some e.file_id =
      (ap (field_at 16 (before ++ (concat (entry_fields utf8 e) ++ after))) (omega arith)
        ∙ field 0 16 0 e.file_id refl refl id) in
    rw
      (
        first,
        new,
        field 1 8 16 (to_be_bytes 8 d.size) refl (omega arith) l_size,
        field 2 4 24 (to_be_bytes 4 d.attributes) refl (omega arith) l_attributes,
        byte_at (length before + 28) (time_flags d)
            (before ++ (concat (entry_fields utf8 e) ++ after))
            (field 3 1 28 (time_flags d ∷ []) refl (omega arith) refl),
        flags_small d.creation_time d.last_access_time d.last_write_time,
        field 4 8 29 (to_be_bytes 8 (filetime_bits d.creation_time)) refl (omega arith) l_creation,
        field 5 8 37 (to_be_bytes 8 (filetime_bits d.last_access_time)) refl (omega arith) l_access,
        field 6 8 45 (to_be_bytes 8 (filetime_bits d.last_write_time)) refl (omega arith) l_write,
        field 7 2 53 (to_be_bytes 2 (length name)) refl (omega arith) l_name,
        from-to_be_bytes 2 (length name) v.name_short,
        field 8 (length name) 55 name refl (omega arith) refl,
        v.name_text,
        from-to_be_bytes 8 d.size v.size_64,
        from-to_be_bytes 4 d.attributes v.attributes_32,
        flagged_time-bits _ d.creation_time v.created
            (flag_creation d.creation_time d.last_access_time d.last_write_time),
        flagged_time-bits _ d.last_access_time v.accessed
            (flag_access d.creation_time d.last_access_time d.last_write_time),
        flagged_time-bits _ d.last_write_time v.written
            (flag_write d.creation_time d.last_access_time d.last_write_time),
      )
      refl
