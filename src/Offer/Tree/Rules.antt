-- ===== src/Offer/Tree/Rules.antt =====
-- The rules for a tree of virtual files, said without the map and the loops of
-- `validate_virtual_descriptor_tree` (src/clipboard/data_object.rs).
use clip_ferry.Common.{
  ℕ, ◌+◌, ◌≤◌, ◌<◌, ◌≡◌, ◌≢◌, ◌⊎◌, true, List, [], ◌∷◌, ◌++◌, length, All, bytes,
}
use clip_ferry.Common.Result.{ok}
use clip_ferry.Offer.Paths.{split, join, utf16_units, backslash, validate_virtual_path}
use clip_ferry.Offer.Tree.{
  VirtualFileDescriptor, is_directory, max_virtual_items, max_virtual_depth,
  max_total_virtual_path_u16, case_fold_path,
}

-- Something holds of one element at least.
abbrev pub Any : (VirtualFileDescriptor → Type 0) → List VirtualFileDescriptor → Type 0
Any P [] = ⊥
Any P (d ∷ ds) = P d ⊎ Any P ds

unfoldable pub total_units : List VirtualFileDescriptor → ℕ
total_units [] = 0
total_units (d ∷ ds) = utf16_units d.file_name + total_units ds

-- The rules for one descriptor.
pub record IsDescriptor (d : VirtualFileDescriptor) : Type 0 where
  pub path_ok : validate_virtual_path d.file_name ≡ ok tt
  pub not_deep : length (split backslash d.file_name) ≤ max_virtual_depth
  pub empty_directory : is_directory d ≡ true → d.size ≡ 0

module _ (lower : ℕ → List ℕ) where
  -- A path that Windows takes for the same.
  abbrev pub SamePath : List ℕ → List ℕ → Type 0
  SamePath p q = case_fold_path lower p ≡ case_fold_path lower q

  abbrev pub Apart : List VirtualFileDescriptor → Type 0
  Apart [] = Unit {0}
  Apart (d ∷ ds) = All (λ e. ¬ SamePath d.file_name e.file_name) ds × Apart ds

  -- The tree has a directory of that path.
  abbrev pub HasDirectory : List VirtualFileDescriptor → List ℕ → Type 0
  HasDirectory ds path = Any (λ e. SamePath e.file_name path × (is_directory e ≡ true)) ds

  abbrev pub HasParents : List VirtualFileDescriptor → VirtualFileDescriptor → Type 0
  HasParents ds d =
      (above below : List (List ℕ))
      → split backslash d.file_name ≡ above ++ below
      → above ≢ []
      → below ≢ []
      → HasDirectory ds (join backslash above)

  -- The rules for a tree.
  pub record IsTree (ds : List VirtualFileDescriptor) : Type 0 where
    pub some_items : 0 < length ds
    pub few_items : length ds ≤ max_virtual_items
    pub descriptors : All IsDescriptor ds
    pub short_paths : total_units ds ≤ max_total_virtual_path_u16
    pub apart : Apart ds
    pub parents : All (HasParents ds) ds
