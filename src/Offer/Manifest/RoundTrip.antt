-- ===== src/Offer/Manifest/RoundTrip.antt =====
-- The client reads the server's manifest back.
use mathlib.Core.List.{append_assoc, append-nil}
use clip_ferry.Common.{
  ℕ, suc, ◌+◌, ◌*◌, ◌^◌, ◌<◌, ◌≤◌, ◌≡◌, ◌∙◌, refl, ap, true, false, List, [], ◌∷◌, ◌++◌, length,
  ltb, leb, ◌==◌, ◌&&◌, not, bytes_eq, arith, length-append, subst, All,
}
use clip_ferry.Common.Bytes.{
  to_be_bytes, concat, field_at-concat, from-to_be_bytes, length-to_be_bytes,
}
use clip_ferry.Common.Result.{ok, guard, >>=-eq-ok}
use clip_ferry.Wire.Code.{internal, encode_response_status, decode_response_status}
use clip_ferry.Wire.Frame.{array_at_io}
use clip_ferry.Wire.Message.{require_ok, only_ok}
use clip_ferry.Offer.Paths.{any}
use clip_ferry.Offer.Tree.{max_virtual_items}
use clip_ferry.Offer.Tree.Rules.{IsTree}
use clip_ferry.Offer.Tree.Valid.{validate_virtual_descriptor_tree_iff}
use clip_ferry.Offer.Manifest.{
  OfferManifestEntry, OfferManifest, Utf8, as_millis, header_fields, entry_fields, encode_entries,
  encode_manifest, decode_entries, descriptors_of, decode_manifest_response,
  max_secure_manifest_bytes,
}
use clip_ferry.Offer.Manifest.Entry.{IsEntry, length-entry_fields, decode_entry-here}

-- The entries, one after the other.
unfoldable pub entries_bytes : Utf8 → List OfferManifestEntry → List ℕ
entries_bytes utf8 [] = []
entries_bytes utf8 (e ∷ es) = concat (entry_fields utf8 e) ++ entries_bytes utf8 es

-- No file twice, and none of those seen.
abbrev pub NewFiles : List (List ℕ) → List OfferManifestEntry → Type 0
NewFiles seen [] = Unit {0}
NewFiles seen (e ∷ es) = (any (bytes_eq e.file_id) seen ≡ false) × NewFiles (e.file_id ∷ seen) es

decode_entries-bytes :
    (utf8 : Utf8) (before : List ℕ) (seen : List (List ℕ)) (es : List OfferManifestEntry)
    → All (IsEntry utf8) es
    → NewFiles seen es
    → decode_entries utf8 (before ++ entries_bytes utf8 es) seen (length before) (length es)
      ≡ ok (es, length (before ++ entries_bytes utf8 es))
unfolding decode_entries entries_bytes
decode_entries-bytes utf8 before seen [] v new = rw (append-nil before) refl
decode_entries-bytes utf8 before seen (e ∷ es) (v, vs) (new, news) =
    let here = concat (entry_fields utf8 e) in
    let next : length before + 55 + length (utf8.as_bytes e.descriptor.file_name)
        ≡ length (before ++ here) =
      omega (arith, length-append before here, length-entry_fields utf8 e v.id_16) in
    let rest : decode_entries utf8 (before ++ (here ++ entries_bytes utf8 es)) (e.file_id ∷ seen)
          (length (before ++ here)) (length es)
        ≡ ok (es, length (before ++ (here ++ entries_bytes utf8 es))) =
      subst
        (λ l.
          decode_entries utf8 l (e.file_id ∷ seen) (length (before ++ here)) (length es)
          ≡ ok (es, length l))
        (append_assoc before here (entries_bytes utf8 es))
        (decode_entries-bytes utf8 (before ++ here) (e.file_id ∷ seen) es vs news) in
    rw (decode_entry-here utf8 before (entries_bytes utf8 es) seen e v new, next, rest) refl

-- What the server's loop has sent, within the bound on a manifest.
encode_entries_ok :
    (utf8 : Utf8) (response encoded : List ℕ) (es : List OfferManifestEntry)
    → encode_entries utf8 response es ≡ ok encoded
    → 0 < length es
    → (encoded ≡ response ++ entries_bytes utf8 es) × (length encoded ≤ max_secure_manifest_bytes)
unfolding encode_entries entries_bytes
encode_entries_ok utf8 response encoded [] done some_items = absurd (omega (arith, some_items))
encode_entries_ok utf8 response encoded (e ∷ []) done some_items =
    let here = concat (entry_fields utf8 e) in
    let (_, name, e₁) =
      >>=-eq-ok (guard (ltb (length (utf8.as_bytes e.descriptor.file_name)) (256 ^ 2)) internal) _
        done in
    let (_, bound, e₂) =
      >>=-eq-ok (guard (leb (length (response ++ here)) max_secure_manifest_bytes) internal) _ e₁ in
    (ground (arith, append-nil here), ground arith)
encode_entries_ok utf8 response encoded (e ∷ e' ∷ es) done some_items =
    let here = concat (entry_fields utf8 e) in
    let (_, name, e₁) =
      >>=-eq-ok (guard (ltb (length (utf8.as_bytes e.descriptor.file_name)) (256 ^ 2)) internal) _
        done in
    let (_, bound, e₂) =
      >>=-eq-ok (guard (leb (length (response ++ here)) max_secure_manifest_bytes) internal) _ e₁ in
    let (split, small) =
      encode_entries_ok utf8 (response ++ here) encoded (e' ∷ es) e₂ (omega arith) in
    (split ∙ append_assoc response here (entries_bytes utf8 (e' ∷ es)), small)

length-entries_bytes :
    (utf8 : Utf8) (es : List OfferManifestEntry)
    → All (IsEntry utf8) es
    → length es * 55 ≤ length (entries_bytes utf8 es)
unfolding entries_bytes
length-entries_bytes utf8 [] v = omega arith
length-entries_bytes utf8 (e ∷ es) (v, vs) = omega (
  arith,
  length-append (concat (entry_fields utf8 e)) (entries_bytes utf8 es),
  length-entry_fields utf8 e v.id_16,
  length-entries_bytes utf8 es vs,
)

length-descriptors_of : (es : List OfferManifestEntry) → length (descriptors_of es) ≡ length es
length-descriptors_of [] = refl
length-descriptors_of (e ∷ es) = ap suc (length-descriptors_of es)

-- What the types of the source say of a manifest, with its rules.
pub record IsManifest (lower : ℕ → List ℕ) (utf8 : Utf8) (m : OfferManifest) : Type 0 where
  pub id_16 : length m.offer_id ≡ 16
  pub entries : All (IsEntry utf8) m.entries
  pub new : NewFiles [] m.entries
  pub tree : IsTree lower (descriptors_of m.entries)
  pub live : 1000000 ≤ m.ttl

as_millis-small : (t : ℕ) → as_millis t < 256 ^ 8
unfolding as_millis
as_millis-small t = ground arith

as_millis-positive : (t : ℕ) → 1000000 ≤ t → 0 < as_millis t
unfolding as_millis
as_millis-positive t h = ground arith

-- Whatever manifest the server can encode, with a tree that keeps the rules, distinct files and a
-- millisecond of life left or more, the client reads back, the time to live cut to whole milliseconds.
pub decode-encode_manifest :
    (lower : ℕ → List ℕ) (utf8 : Utf8) (m : OfferManifest) (encoded : List ℕ)
    → IsManifest lower utf8 m
    → encode_manifest utf8 m ≡ ok encoded
    → decode_manifest_response lower utf8 encoded
      ≡ ok (record m { ttl = as_millis m.ttl * 1000000 })
unfolding encode_manifest decode_manifest_response array_at_io require_ok only_ok
    encode_response_status decode_response_status
decode-encode_manifest lower utf8 m encoded v e =
    let header = concat (header_fields m) in
    let bytes = entries_bytes utf8 m.entries in
    let count = length m.entries in
    let same = length-descriptors_of m.entries in
    let many : 0 < count = omega (arith, same, v.tree.some_items) in
    let few : count ≤ max_virtual_items = omega (arith, same, v.tree.few_items) in
    let (_, counted, e₁) = >>=-eq-ok (guard (ltb count (256 ^ 4)) internal) _ e in
    let (split, small) = encode_entries_ok utf8 header encoded m.entries e₁ many in
    let l_ttl = length-to_be_bytes 8 (as_millis m.ttl) in
    let l_count = length-to_be_bytes 4 count in
    let id = v.id_16 in
    let l_header : length header ≡ 29 = simp length-append (omega (arith, l_ttl, l_count, id)) in
    let l_all : length (header ++ bytes) ≡ 29 + length bytes =
      omega (arith, length-append header bytes, l_header) in
    let l_bytes = length-entries_bytes utf8 m.entries v.entries in
    let field = field_at-concat (header_fields m) in
    let read : decode_entries utf8 (header ++ bytes) [] 29 count
        ≡ ok (m.entries, length (header ++ bytes)) =
      subst
        (λ k.
          decode_entries utf8 (header ++ bytes) [] k count
          ≡ ok (m.entries, length (header ++ bytes)))
        l_header (decode_entries-bytes utf8 header [] m.entries v.entries v.new) in
    let long : leb 29 (length (header ++ bytes)) ≡ true = ground (arith, l_all) in
    let alive : (as_millis m.ttl == 0) ≡ false = ground (arith, as_millis-positive m.ttl v.live) in
    let number : (not (count == 0) && leb count max_virtual_items) ≡ true =
      ground (arith, many, few) in
    let room : (leb (29 + count * 55) (length (header ++ bytes))
          && leb (length (header ++ bytes)) max_secure_manifest_bytes)
        ≡ true =
      ground
        (arith, l_all, l_bytes, subst (λ l. length l ≤ max_secure_manifest_bytes) split small) in
    let end : (length (header ++ bytes) == length (header ++ bytes)) ≡ true = ground arith in
    let tree = (validate_virtual_descriptor_tree_iff lower (descriptors_of m.entries)).1 v.tree in
    rw
      (
        split,
        long,
        field 1 16 1 bytes m.offer_id refl (omega arith) id,
        field 2 8 17 bytes (to_be_bytes 8 (as_millis m.ttl)) refl (omega (arith, id)) l_ttl,
        from-to_be_bytes 8 (as_millis m.ttl) (as_millis-small m.ttl),
        alive,
        field 3 4 25 bytes (to_be_bytes 4 count) refl (omega (arith, id, l_ttl)) l_count,
        from-to_be_bytes 4 count (omega (arith, few)),
        number,
        room,
        read,
        end,
        tree,
      )
      refl
