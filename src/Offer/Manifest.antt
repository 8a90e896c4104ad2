-- ===== src/Offer/Manifest.antt =====
-- The manifest of an offer: `OfferManifest`, `encode_manifest_response` and
-- `decode_manifest_response` of src/clipboard/secure_transfer.rs. UTF-8, which the standard library
-- codes and decodes, is an argument.
pub mod Entry
pub mod RoundTrip
use clip_ferry.Common.{
  ℕ, ◌+◌, ◌-◌, ◌*◌, ◌/◌, ◌%◌, ◌^◌, ◌≡◌, zero, suc, Bool, true, false, Option, none, some, List, [],
  ◌∷◌, ◌++◌, length, drop, get_elem?, leb, ltb, ◌==◌, if◌then◌else◌, ◌&&◌, ◌||◌, not, bytes_eq,
}
use clip_ferry.Common.Bytes.{to_be_bytes, from_be_bytes, field_at, concat}
use clip_ferry.Common.Result.{
  Result, IoResult, ok, err, guard, ok_or, ◌>>=◌, ◌>>◌, invalid_data, invalid_input,
}
use clip_ferry.Wire.Code.{WireResult, ResponseStatus, encode_response_status, expired, internal}
use clip_ferry.Wire.Frame.{array_at_io}
use clip_ferry.Wire.Message.{require_ok}
use clip_ferry.Offer.Paths.{any}
use clip_ferry.Offer.Tree.{
  FileTime, VirtualFileDescriptor, max_virtual_items, validate_virtual_descriptor_tree,
}

pub record OfferManifestEntry : Type 0 where
  pub file_id : List ℕ
  pub descriptor : VirtualFileDescriptor

-- The time to live counts nanoseconds.
pub record OfferManifest : Type 0 where
  pub offer_id : List ℕ
  pub entries : List OfferManifestEntry
  pub ttl : ℕ

-- `manifest_entry`: the first entry of that file.
unfoldable pub manifest_entry : List ℕ → List OfferManifestEntry → Option OfferManifestEntry
manifest_entry file_id [] = none
manifest_entry file_id (e ∷ es) =
    if bytes_eq e.file_id file_id then some e else manifest_entry file_id es

abbrev pub manifest_header_len : ℕ
manifest_header_len = 29

abbrev pub manifest_entry_fixed_len : ℕ
manifest_entry_fixed_len = 55

abbrev pub max_secure_manifest_bytes : ℕ
max_secure_manifest_bytes = 1024 * 1024

-- `as_bytes` and `from_utf8`.
pub record Utf8 : Type 0 where
  pub as_bytes : List ℕ → List ℕ
  pub from_utf8 : List ℕ → Option (List ℕ)

unfoldable pub filetime_bits : Option FileTime → ℕ
filetime_bits none = 0
filetime_bits (some t) = t.low + t.high * 2 ^ 32

unfoldable pub filetime_from_bits : ℕ → FileTime
filetime_from_bits v = record { low = v % 2 ^ 32; high = v / 2 ^ 32 }

-- A flag of the given weight for a time that is there.
abbrev pub time_flag : ℕ → Option FileTime → ℕ
time_flag weight none = 0
time_flag weight (some t) = weight

unfoldable pub time_flags : VirtualFileDescriptor → ℕ
time_flags d =
    time_flag 1 d.creation_time + time_flag 2 d.last_access_time + time_flag 4 d.last_write_time

-- `(flags & bit != 0).then(|| filetime_from_bits(bits))`
unfoldable pub flagged_time : Bool → ℕ → Option FileTime
unfolding filetime_from_bits
flagged_time present bits = if present then some (filetime_from_bits bits) else none

-- `u64::try_from(duration.as_millis()).unwrap_or(u64::MAX)`
unfoldable pub as_millis : ℕ → ℕ
as_millis nanoseconds =
    if ltb (nanoseconds / 1000000) (2 ^ 64) then nanoseconds / 1000000 else 2 ^ 64 - 1

-- The fields of an entry, in the order in which they are sent.
abbrev pub entry_fields : Utf8 → OfferManifestEntry → List (List ℕ)
entry_fields utf8 e =
    let d = e.descriptor in
    let name = utf8.as_bytes d.file_name in
    e.file_id
    ∷ to_be_bytes 8 d.size
    ∷ to_be_bytes 4 d.attributes
    ∷ (time_flags d ∷ [])
    ∷ to_be_bytes 8 (filetime_bits d.creation_time)
    ∷ to_be_bytes 8 (filetime_bits d.last_access_time)
    ∷ to_be_bytes 8 (filetime_bits d.last_write_time)
    ∷ to_be_bytes 2 (length name)
    ∷ name
    ∷ []

-- The loop over the entries, on the response so far.
unfoldable pub encode_entries : Utf8 → List ℕ → List OfferManifestEntry → WireResult (List ℕ)
encode_entries utf8 response [] = Result.ok response
encode_entries utf8 response (e ∷ es) = do
  guard (ltb (length (utf8.as_bytes e.descriptor.file_name)) (256 ^ 2)) internal
  guard (leb (length (response ++ concat (entry_fields utf8 e))) max_secure_manifest_bytes) internal
  encode_entries utf8 (response ++ concat (entry_fields utf8 e)) es

abbrev pub header_fields : OfferManifest → List (List ℕ)
header_fields m =
    (encode_response_status ResponseStatus.ok ∷ [])
    ∷ m.offer_id
    ∷ to_be_bytes 8 (as_millis m.ttl)
    ∷ to_be_bytes 4 (length m.entries)
    ∷ []

-- `encode_manifest_response` for the manifest with the time that is left.
unfoldable pub encode_manifest : Utf8 → OfferManifest → WireResult (List ℕ)
encode_manifest utf8 m = do
  guard (ltb (length m.entries) (256 ^ 4)) internal
  encode_entries utf8 (concat (header_fields m)) m.entries

-- One round of the client's loop: the entry at the cursor, and where the next one begins.
unfoldable pub decode_entry : Utf8 → List ℕ → List (List ℕ) → ℕ → IoResult (OfferManifestEntry × ℕ)
unfolding array_at_io
decode_entry utf8 response seen cursor = do
  file_id ← array_at_io 16 response cursor
  guard (not (any (bytes_eq file_id) seen)) invalid_data
  size ← array_at_io 8 response (cursor + 16)
  attributes ← array_at_io 4 response (cursor + 24)
  flags ← ok_or (get_elem? response (cursor + 28)) invalid_data
  guard (ltb flags 8) invalid_data
  creation ← array_at_io 8 response (cursor + 29)
  access ← array_at_io 8 response (cursor + 37)
  write ← array_at_io 8 response (cursor + 45)
  name_length ← array_at_io 2 response (cursor + 53)
  name ← array_at_io (from_be_bytes name_length) response (cursor + 55)
  file_name ← ok_or (utf8.from_utf8 name) invalid_data
  ok (
    record {
      file_id = file_id;
      descriptor = record {
        file_name = file_name;
        size = from_be_bytes size;
        attributes = from_be_bytes attributes;
        creation_time = flagged_time (flags % 2 == 1) (from_be_bytes creation);
        last_access_time = flagged_time (flags / 2 % 2 == 1) (from_be_bytes access);
        last_write_time = flagged_time (flags / 4 % 2 == 1) (from_be_bytes write);
      };
    },
    cursor + 55 + from_be_bytes name_length,
  )

-- The loop, on the number of entries that are left.
unfoldable pub decode_entries :
    Utf8 → List ℕ → List (List ℕ) → ℕ → ℕ → IoResult (List OfferManifestEntry × ℕ)
decode_entries utf8 response seen cursor zero = ok ([], cursor)
decode_entries utf8 response seen cursor (suc count) = do
  (entry, next) ← decode_entry utf8 response seen cursor
  (entries, end) ← decode_entries utf8 response (entry.file_id ∷ seen) next count
  ok (entry ∷ entries, end)

abbrev pub descriptors_of : List OfferManifestEntry → List VirtualFileDescriptor
descriptors_of [] = []
descriptors_of (e ∷ es) = e.descriptor ∷ descriptors_of es

-- `invalid_windows`: the tree's refusal as an error of the connection.
abbrev pub checked_tree : {A : Type 0} {E : Type 0} → Result E A → IoResult (Unit {0})
checked_tree (ok a) = ok tt
checked_tree (err e) = err invalid_data

unfoldable pub decode_manifest_response : (ℕ → List ℕ) → Utf8 → List ℕ → IoResult OfferManifest
unfolding array_at_io
decode_manifest_response lower utf8 response = do
  require_ok response
  guard (leb manifest_header_len (length response)) invalid_data
  offer_id ← array_at_io 16 response 1
  ttl_millis ← array_at_io 8 response 17
  guard (not (from_be_bytes ttl_millis == 0)) invalid_data
  item_count ← array_at_io 4 response 25
  let count = from_be_bytes item_count
  guard (not (count == 0) && leb count max_virtual_items) invalid_data
  guard
      (leb (manifest_header_len + count * manifest_entry_fixed_len) (length response)
        && leb (length response) max_secure_manifest_bytes)
      invalid_data
  (entries, cursor) ← decode_entries utf8 response [] manifest_header_len count
  guard (cursor == length response) invalid_data
  checked_tree (validate_virtual_descriptor_tree lower (descriptors_of entries))
  ok (record { offer_id = offer_id; entries = entries; ttl = from_be_bytes ttl_millis * 1000000 })
