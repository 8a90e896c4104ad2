-- ===== src/Offer/Tree.antt =====
-- `VirtualFileDescriptor` and `validate_virtual_descriptor_tree` of src/clipboard/data_object.rs.
pub mod Rules
pub mod Loop
pub mod Parents
pub mod Valid
use clip_ferry.Common.{
  ℕ, ◌+◌, ◌*◌, ◌/◌, ◌%◌, Bool, true, false, Option, none, some, List, [], ◌∷◌, ◌++◌, length, map,
  leb, ◌==◌, ◌&&◌, not, bytes,
}
use clip_ferry.Common.Map.{lookup, insert}
use clip_ferry.Common.Result.{Result, ok, err, guard, ◌>>=◌, ◌>>◌}
use clip_ferry.Clipboard.Source.{HresultError, ComResult, e_invalidarg, dv_e_formatetc}
use clip_ferry.Offer.Paths.{split, join, utf16_units, backslash, validate_virtual_path}

abbrev pub max_virtual_items : ℕ
max_virtual_items = 4096

abbrev pub max_virtual_depth : ℕ
max_virtual_depth = 64

abbrev pub max_total_virtual_path_u16 : ℕ
max_total_virtual_path_u16 = 256 * 1024

-- FILETIME: the low and the high half.
pub record FileTime : Type 0 where
  pub low : ℕ
  pub high : ℕ

pub record VirtualFileDescriptor : Type 0 where
  pub file_name : List ℕ
  pub size : ℕ
  pub attributes : ℕ
  pub creation_time : Option FileTime
  pub last_access_time : Option FileTime
  pub last_write_time : Option FileTime

-- `VirtualFileDescriptor::basic`, with FILE_ATTRIBUTE_NORMAL.
unfoldable pub basic : List ℕ → ℕ → VirtualFileDescriptor
basic file_name size = record {
  file_name = file_name;
  size = size;
  attributes = 128;
  creation_time = none;
  last_access_time = none;
  last_write_time = none;
}

-- `attributes & FILE_ATTRIBUTE_DIRECTORY != 0`; the constant is the bit of weight 16.
unfoldable pub is_directory : VirtualFileDescriptor → Bool
is_directory d = d.attributes / 16 % 2 == 1

-- A new entry of a set or a map.
abbrev pub is_new : {V : Type 0} → Option V → Bool
is_new none = true
is_new (some v) = false

-- `char::to_lowercase` is a table of the standard library: it is an argument, `lower`.
module _ (lower : ℕ → List ℕ) where
  unfoldable pub case_fold_path : List ℕ → List ℕ
  case_fold_path [] = []
  case_fold_path (c ∷ cs) = lower c ++ case_fold_path cs

  -- One round of the first loop: the units counted so far, and the map from folded paths.
  unfoldable pub check_descriptor :
      VirtualFileDescriptor → ℕ × List (List ℕ × Bool) → ComResult (ℕ × List (List ℕ × Bool))
  check_descriptor d (units, by_path) = do
    validate_virtual_path d.file_name
    guard (leb (length (split backslash d.file_name)) max_virtual_depth) dv_e_formatetc
    guard (leb (units + utf16_units d.file_name) max_total_virtual_path_u16) dv_e_formatetc
    guard (not (is_directory d && not (d.size == 0))) e_invalidarg
    guard (is_new (lookup (case_fold_path d.file_name) by_path)) dv_e_formatetc
    ok (
      units + utf16_units d.file_name,
      insert (case_fold_path d.file_name) (is_directory d) by_path,
    )

  unfoldable pub check_descriptors :
      List VirtualFileDescriptor → ℕ × List (List ℕ × Bool) → ComResult (ℕ × List (List ℕ × Bool))
  check_descriptors [] acc = ok acc
  check_descriptors (d ∷ ds) acc = do acc' ← check_descriptor d acc; check_descriptors ds acc'

  -- `by_path.get(key) == Some(&true)`
  abbrev pub is_known_directory : List (List ℕ × Bool) → List ℕ → Bool
  is_known_directory by_path path = elim (lookup (case_fold_path path) by_path) [
    | some directory ↦ directory
    | none ↦ false
  ]

  -- The paths `components[..depth]` for the depths from that of `above` on.
  unfoldable pub check_parents :
      List (List ℕ × Bool) → List (List ℕ) → List (List ℕ) → ComResult (Unit {0})
  check_parents by_path above [] = ok tt
  check_parents by_path above (w ∷ ws) = do
    guard (is_known_directory by_path (join backslash above)) dv_e_formatetc
    check_parents by_path (above ++ (w ∷ [])) ws

  unfoldable pub check_path_parents : List (List ℕ × Bool) → List (List ℕ) → ComResult (Unit {0})
  unfolding check_parents
  check_path_parents by_path [] = ok tt
  check_path_parents by_path (w ∷ ws) = check_parents by_path (w ∷ []) ws

  unfoldable pub check_all_parents :
      List (List ℕ × Bool) → List VirtualFileDescriptor → ComResult (Unit {0})
  check_all_parents by_path [] = ok tt
  check_all_parents by_path (d ∷ ds) = do
    check_path_parents by_path (split backslash d.file_name)
    check_all_parents by_path ds

  unfoldable pub validate_virtual_descriptor_tree :
      List VirtualFileDescriptor → ComResult (Unit {0})
  validate_virtual_descriptor_tree ds = do
    guard (not (length ds == 0) && leb (length ds) max_virtual_items) e_invalidarg
    (units, by_path) ← check_descriptors ds (0, [])
    check_all_parents by_path ds
