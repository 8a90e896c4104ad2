-- ===== src/Offer/Tree/Valid.antt =====
-- `validate_virtual_descriptor_tree` (src/clipboard/data_object.rs) against the rules.
use clip_ferry.Common.{
  ℕ, ◌≡◌, ◌∙◌, ◌↔◌, inl, inr, refl, sym, ap, Bool, true, none, some, List, [], ◌∷◌, length, leb,
  ◌==◌, ◌&&◌, not, All, arith, bytes, Option-cases,
}
use clip_ferry.Common.Map.{lookup}
use clip_ferry.Common.Result.{ok, guard, >>=-eq-ok}
use clip_ferry.Clipboard.Source.{e_invalidarg}
use clip_ferry.Offer.Paths.{join, backslash}
use clip_ferry.Offer.Tree.{
  VirtualFileDescriptor, max_virtual_items, case_fold_path, check_descriptors, is_known_directory,
  validate_virtual_descriptor_tree,
}
use clip_ferry.Offer.Tree.Rules.{Apart, HasDirectory, HasParents, IsTree}
use clip_ferry.Offer.Tree.Loop.{
  known, Fresh, check_descriptors_ok, check_descriptors_complete, known_directory, directory_known,
}
use clip_ferry.Offer.Tree.Parents.{KnownParents, check_all_parents_iff}

module _ (lower : ℕ → List ℕ) where
  All-mono :
      (P Q : VirtualFileDescriptor → Type 0) (ds : List VirtualFileDescriptor)
      → ((d : VirtualFileDescriptor) → P d → Q d)
      → All P ds
      → All Q ds
  All-mono P Q [] f h = tt
  All-mono P Q (d ∷ ds) f h = (f d h.0, All-mono P Q ds f h.1)

  -- The map after the first loop knows the directories of the tree.
  module _ (ds : List VirtualFileDescriptor) (apart : Apart lower ds) (m : List (List ℕ × Bool))
      (found : (k : List ℕ) → lookup k m ≡ known lower k ds none) where
    known_iff :
        (path : List ℕ) → (is_known_directory lower m path ≡ true) ↔ HasDirectory lower ds path
    known_iff path =
        let here = found (case_fold_path lower path) in
        (
          λ e. elim (Option-cases (lookup (case_fold_path lower path) m)) [
            | inl none_there ↦
                (let wrong = rw (none_there, is_known_directory) at e in absurd (ground arith))
            | inr (b, there) ↦
                let directory : b ≡ true = rw (there, is_known_directory) at e in
                elim (known_directory lower path ds none (sym here ∙ there ∙ ap some directory)) [
                  | inl h ↦ h
                  | inr wrong ↦ absurd (ground arith)
                ]
          ],
          λ h. rw (here ∙ directory_known lower path ds none apart h, is_known_directory) refl,
        )

-- A map with nothing in it.
Fresh-empty : (lower : ℕ → List ℕ) (ds : List VirtualFileDescriptor) → Fresh lower [] ds
unfolding lookup
Fresh-empty lower [] = tt
Fresh-empty lower (d ∷ ds) = (refl, Fresh-empty lower ds)

-- The validation of a tree accepts exactly the trees that keep the rules: between 1 and 4096 items,
-- each with a valid path of at most 64 components, no directory with a size, at most 256 Ki units of
-- UTF-16 in all, no two paths that Windows takes for the same, and for every item each path above
-- it a directory of the tree.
pub validate_virtual_descriptor_tree_iff :
    (lower : ℕ → List ℕ) (ds : List VirtualFileDescriptor)
    → (validate_virtual_descriptor_tree lower ds ≡ ok tt) ↔ IsTree lower ds
unfolding validate_virtual_descriptor_tree lookup
validate_virtual_descriptor_tree_iff lower ds = (
  λ e.
      let (_, counted, e₁) =
        >>=-eq-ok (guard (not (length ds == 0) && leb (length ds) max_virtual_items) e_invalidarg) _
          e in
      let ((units, m), looped, checked) = >>=-eq-ok (check_descriptors lower ds (0, [])) _ e₁ in
      let (r, found) = check_descriptors_ok lower 0 [] ds units m (omega arith) looped in
      record {
        some_items = ground arith;
        few_items = ground arith;
        descriptors = r.each;
        short_paths = omega (arith, r.short);
        apart = r.distinct;
        parents =
            All-mono lower (KnownParents lower m) (HasParents lower ds) ds
              (λ d h above below split_at a b.
                (known_iff lower ds r.distinct m found (join backslash above)).0
                  (h above below split_at a b))
              ((check_all_parents_iff lower m ds).0 checked);
      },
  λ v.
      let ((units, m), looped) = check_descriptors_complete lower 0 [] ds (record {
        each = v.descriptors;
        short = omega (arith, v.short_paths);
        fresh = Fresh-empty lower ds;
        distinct = v.apart;
      }) in
      let (r, found) = check_descriptors_ok lower 0 [] ds units m (omega arith) looped in
      let counted : (not (length ds == 0) && leb (length ds) max_virtual_items) ≡ true =
        ground (arith, v.some_items, v.few_items) in
      rw (counted, looped)
        ((check_all_parents_iff lower m ds).1 (
          All-mono lower (HasParents lower ds) (KnownParents lower m) ds
            (λ d h above below split_at a b.
              (known_iff lower ds r.distinct m found (join backslash above)).1
                (h above below split_at a b))
            v.parents)),
)
