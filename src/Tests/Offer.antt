-- ===== src/Tests/Offer.antt =====
-- Trees of files and manifests at concrete inputs.
use clip_ferry.Common.{
  ℕ, ◌*◌, ◌≡◌, ◌↔◌, refl, none, some, List, [], ◌∷◌, arith, bytes, bytes_eq, if◌then◌else◌, ◌+◌,
  ◌&&◌, leb,
}
use clip_ferry.Common.Bytes.{to_be_bytes}
use clip_ferry.Common.Result.{ok}
use clip_ferry.Common.Map.{lookup, insert}
use clip_ferry.Offer.Paths.{
  any, validate_virtual_path, validate_components, validate_virtual_path_component, split,
  is_bad_component, is_control_char, is_forbidden_char, ends_with_space_or_dot,
  is_reserved_dos_name, utf16_units, to_ascii_upper, is_device_number, is_port_name, join,
}
use clip_ferry.Offer.Tree.{
  VirtualFileDescriptor, is_directory, case_fold_path, check_descriptor, check_descriptors,
  check_parents, check_path_parents, check_all_parents, validate_virtual_descriptor_tree,
}
use clip_ferry.Offer.Tree.Rules.{IsTree}
use clip_ferry.Offer.Tree.Valid.{validate_virtual_descriptor_tree_iff}
use clip_ferry.Offer.Manifest.{
  OfferManifest, Utf8, encode_manifest, encode_entries, decode_manifest_response, as_millis,
}
use clip_ferry.Offer.Manifest.RoundTrip.{IsManifest, decode-encode_manifest}
use clip_ferry.Server.Answers.{response_payload}

-- Lower case of the ASCII letters.
abbrev lower_ascii : ℕ → List ℕ
lower_ascii c = (if leb 65 c && leb c 90 then c + 32 else c) ∷ []

abbrev directory_a : VirtualFileDescriptor
directory_a = record {
  file_name = b'a' ∷ [];
  size = 0;
  attributes = 16;
  creation_time = none;
  last_access_time = none;
  last_write_time = none;
}

abbrev file_in_a : VirtualFileDescriptor
file_in_a = record {
  file_name = b'A' ∷ 92 ∷ b'b' ∷ [];
  size = 5;
  attributes = 128;
  creation_time = none;
  last_access_time = none;
  last_write_time = some (record { low = 7; high = 1 });
}

abbrev tree_a : List VirtualFileDescriptor
tree_a = file_in_a ∷ directory_a ∷ []

validate_virtual_descriptor_tree_iff_example :
    (validate_virtual_descriptor_tree lower_ascii tree_a ≡ ok tt) ↔ IsTree lower_ascii tree_a
validate_virtual_descriptor_tree_iff_example =
    validate_virtual_descriptor_tree_iff lower_ascii tree_a

tree_a_ok : validate_virtual_descriptor_tree lower_ascii tree_a ≡ ok tt
unfolding validate_virtual_descriptor_tree check_descriptors check_descriptor validate_virtual_path
    any utf16_units validate_components split validate_virtual_path_component is_bad_component
    bytes_eq is_forbidden_char ends_with_space_or_dot is_control_char is_reserved_dos_name
    to_ascii_upper is_directory insert lookup is_device_number is_port_name join case_fold_path
    check_all_parents check_parents check_path_parents
tree_a_ok = refl

abbrev id_of : ℕ → List ℕ
id_of n = to_be_bytes 16 n

abbrev ascii : Utf8
ascii = record { as_bytes = λ s. s; from_utf8 = λ b. some b }

abbrev manifest_a : OfferManifest
manifest_a = record {
  offer_id = id_of 1;
  entries =
      (record { file_id = id_of 2; descriptor = file_in_a })
      ∷ (record { file_id = id_of 3; descriptor = directory_a })
      ∷ [];
  ttl = 2500000;
}

abbrev encoded_a : List ℕ
encoded_a = response_payload (encode_manifest ascii manifest_a)

encoded_a_ok : encode_manifest ascii manifest_a ≡ ok encoded_a
unfolding encode_manifest encode_entries response_payload to_be_bytes
encoded_a_ok = refl

manifest_a-IsManifest : IsManifest lower_ascii ascii manifest_a
unfolding to_be_bytes any bytes_eq
manifest_a-IsManifest = record {
  id_16 = refl;
  entries = (
    record {
      id_16 = refl;
      size_64 = omega arith;
      attributes_32 = omega arith;
      created = tt;
      accessed = tt;
      written = (omega arith, omega arith);
      name_short = omega arith;
      name_text = refl;
    },
    (
      record {
        id_16 = refl;
        size_64 = omega arith;
        attributes_32 = omega arith;
        created = tt;
        accessed = tt;
        written = tt;
        name_short = omega arith;
        name_text = refl;
      },
      tt,
    ),
  );
  new = (refl, (refl, tt));
  tree = validate_virtual_descriptor_tree_iff_example.0 tree_a_ok;
  live = omega arith;
}

decode-encode_manifest_example :
    decode_manifest_response lower_ascii ascii encoded_a
    ≡ ok (record manifest_a { ttl = as_millis 2500000 * 1000000 })
decode-encode_manifest_example =
    decode-encode_manifest lower_ascii ascii manifest_a encoded_a manifest_a-IsManifest encoded_a_ok
