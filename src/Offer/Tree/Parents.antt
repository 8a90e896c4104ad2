-- ===== src/Offer/Tree/Parents.antt =====
-- The second loop of `validate_virtual_descriptor_tree` (src/clipboard/data_object.rs): the paths
-- above each item.
use mathlib.Core.List.{append_assoc, append-nil}
use clip_ferry.Common.{
  ℕ, ◌≡◌, ◌≢◌, ◌∙◌, ◌↔◌, inl, inr, refl, sym, ap, subst, Bool, true, List, [], ◌∷◌, ◌++◌, All,
  arith, bytes, Bool-cases,
}
use clip_ferry.Common.Result.{ok, >>=-eq-ok}
use clip_ferry.Offer.Paths.{split, join, backslash}
use clip_ferry.Offer.Tree.{
  VirtualFileDescriptor, is_known_directory, check_parents, check_path_parents, check_all_parents,
}

module _ (lower : ℕ → List ℕ) where
  -- The loop over the depths, for any property of a path.
  Above : (List ℕ → Type 0) → List (List ℕ) → List (List ℕ) → Type 0
  Above P above [] = Unit
  Above P above (w ∷ ws) = P (join backslash above) × Above P (above ++ (w ∷ [])) ws

  Above-all :
      (P : List ℕ → Type 0) (above ws mid below : List (List ℕ))
      → Above P above ws
      → ws ≡ mid ++ below
      → below ≢ []
      → P (join backslash (above ++ mid))
  unfolding Above
  Above-all P above [] [] below h e some_below = absurd (some_below (sym e))
  Above-all P above [] (v ∷ mid) below h e some_below = cc
  Above-all P above (w ∷ ws) [] below h e some_below = rw append-nil h.0
  Above-all P above (w ∷ ws) (v ∷ mid) below h e some_below =
      let tail : ws ≡ mid ++ below = ground arith in
      let head : w ≡ v = ground arith in
      let shift : (above ++ (w ∷ [])) ++ mid ≡ above ++ (v ∷ mid) =
        append_assoc above (w ∷ []) mid ∙ ap (λ x. above ++ (x ∷ mid)) head in
      subst (λ x. P (join backslash x)) shift
        (Above-all P (above ++ (w ∷ [])) ws mid below h.1 tail some_below)

  Above-from :
      (P : List ℕ → Type 0) (above ws : List (List ℕ))
      → ((mid below : List (List ℕ))
          → ws ≡ mid ++ below
          → below ≢ []
          → P (join backslash (above ++ mid)))
      → Above P above ws
  unfolding Above
  Above-from P above [] h = tt
  Above-from P above (w ∷ ws) h = (
    rw (← append-nil above) (h [] (w ∷ ws) refl (λ e. cc)),
    Above-from P (above ++ (w ∷ [])) ws (λ mid below e some_below.
        subst (λ x. P (join backslash x)) (sym (append_assoc above (w ∷ []) mid))
          (h (w ∷ mid) below (ap (λ x. w ∷ x) e) some_below)),
  )

  module _ (by_path : List (List ℕ × Bool)) where
    abbrev pub Known : List ℕ → Type 0
    Known path = is_known_directory lower by_path path ≡ true

    check_parents_iff :
        (above ws : List (List ℕ))
        → (check_parents lower by_path above ws ≡ ok tt) ↔ Above Known above ws
    unfolding check_parents Above
    check_parents_iff above [] = (λ _. tt, λ _. refl)
    check_parents_iff above (w ∷ ws) =
        let (a, b) = check_parents_iff (above ++ (w ∷ [])) ws in
        elim (Bool-cases (is_known_directory lower by_path (join backslash above))) [
          | inl found ↦ (λ e. (found, a (rw found at e)), λ h. rw found (b h.1))
          | inr missing ↦ (
            λ e. let refused = rw missing at e in absurd (ground arith),
            λ h. let both = h.0 in absurd (ground arith),
          )
        ]

    abbrev pub KnownParents : VirtualFileDescriptor → Type 0
    KnownParents d =
        (above below : List (List ℕ))
        → split backslash d.file_name ≡ above ++ below
        → above ≢ []
        → below ≢ []
        → Known (join backslash above)

    no_parents :
        (above below : List (List ℕ))
        → ◌≡◌ {A = List (List ℕ)} [] (above ++ below)
        → above ≢ []
        → Known (join backslash above)
    no_parents [] below e a = absurd (a refl)
    no_parents (v ∷ mid) below e a = absurd (ground arith)

    parents_of :
        (w : List ℕ) (ws above below : List (List ℕ))
        → Above Known (w ∷ []) ws
        → w ∷ ws ≡ above ++ below
        → above ≢ []
        → below ≢ []
        → Known (join backslash above)
    parents_of w ws [] below h e a b = absurd (a refl)
    parents_of w ws (v ∷ mid) below h e a b =
        let head : w ≡ v = ground arith in
        let tail : ws ≡ mid ++ below = ground arith in
        subst (λ x. Known (join backslash (x ∷ mid))) head
          (Above-all Known (w ∷ []) ws mid below h tail b)

    check_path_parents_iff :
        (ws : List (List ℕ))
        → (check_path_parents lower by_path ws ≡ ok tt) ↔ (
            (above below : List (List ℕ))
            → ws ≡ above ++ below
            → above ≢ []
            → below ≢ []
            → Known (join backslash above))
    unfolding check_path_parents
    check_path_parents_iff [] = (λ _ above below e a b. no_parents above below e a, λ _. refl)
    check_path_parents_iff (w ∷ ws) = (
      λ e above below split_at a b.
          parents_of w ws above below ((check_parents_iff (w ∷ []) ws).0 e) split_at a b,
      λ h. (check_parents_iff (w ∷ []) ws).1 (
          Above-from Known (w ∷ []) ws
            (λ mid below e b. h (w ∷ mid) below (ap (λ x. w ∷ x) e) (λ x. cc) b)),
    )

    pub check_all_parents_iff :
        (ds : List VirtualFileDescriptor)
        → (check_all_parents lower by_path ds ≡ ok tt) ↔ All KnownParents ds
    unfolding check_all_parents
    check_all_parents_iff [] = (λ _. tt, λ _. refl)
    check_all_parents_iff (d ∷ ds) =
        let (a, b) = check_path_parents_iff (split backslash d.file_name) in
        let (a', b') = check_all_parents_iff ds in
        (
          λ e.
              (let (_, first, rest) =
                  >>=-eq-ok (check_path_parents lower by_path (split backslash d.file_name)) _ e in
                (a first, a' rest)),
          λ h. rw (b h.0) (b' h.1),
        )
