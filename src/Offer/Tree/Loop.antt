-- ===== src/Offer/Tree/Loop.antt =====
-- The first loop of `validate_virtual_descriptor_tree` (src/clipboard/data_object.rs), and what its
-- map knows at the end.
use clip_ferry.Common.{
  ℕ, ◌+◌, ◌≤◌, ◌≡◌, ◌≢◌, ◌∙◌, ◌⊎◌, inl, inr, refl, sym, ap, subst, Bool, true, Option, none, some,
  List, [], ◌∷◌, if◌then◌else◌, All, arith, bytes, bytes_eq, bytes_eq_iff, Bool-cases, Option-cases,
}
use clip_ferry.Common.Map.{lookup, insert, lookup-insert}
use clip_ferry.Common.Result.{ok, >>=-eq-ok}
use clip_ferry.Offer.Paths.{utf16_units, validate_virtual_path}
use clip_ferry.Offer.Tree.{
  VirtualFileDescriptor, is_directory, max_total_virtual_path_u16, case_fold_path, check_descriptor,
  check_descriptors,
}
use clip_ferry.Offer.Tree.Rules.{total_units, IsDescriptor, Apart, HasDirectory}

module _ (lower : ℕ → List ℕ) where
  abbrev pub key : VirtualFileDescriptor → List ℕ
  key d = case_fold_path lower d.file_name

  -- What the map says of a path once the descriptors are in it.
  unfoldable pub known : List ℕ → List VirtualFileDescriptor → Option Bool → Option Bool
  known k [] o = o
  known k (d ∷ ds) o = known k ds (if bytes_eq (key d) k then some (is_directory d) else o)

  abbrev pub Fresh : List (List ℕ × Bool) → List VirtualFileDescriptor → Type 0
  Fresh m ds = All (λ d. lookup (key d) m ≡ none) ds

  -- One round of the first loop.
  abbrev pub Round : ℕ → List (List ℕ × Bool) → VirtualFileDescriptor → Type 0
  Round u m d =
      IsDescriptor d
      × (u + utf16_units d.file_name ≤ max_total_virtual_path_u16)
      × (lookup (key d) m ≡ none)

  abbrev after : ℕ → List (List ℕ × Bool) → VirtualFileDescriptor → ℕ × List (List ℕ × Bool)
  after u m d = (u + utf16_units d.file_name, insert (key d) (is_directory d) m)

  check_descriptor_ok :
      (u : ℕ) (m : List (List ℕ × Bool)) (d : VirtualFileDescriptor)
      {acc : ℕ × List (List ℕ × Bool)}
      → check_descriptor lower d (u, m) ≡ ok acc
      → Round u m d × (acc ≡ after u m d)
  unfolding check_descriptor
  check_descriptor_ok u m d e =
      let (_, path_ok, e₁) = >>=-eq-ok (validate_virtual_path d.file_name) _ e in
      elim (Option-cases (lookup (case_fold_path lower d.file_name) m)) [
        | inl absent ↦ (
          (
            record {
              path_ok = path_ok;
              not_deep = ground arith;
              empty_directory = λ h. ground arith;
            },
            ground arith,
            absent,
          ),
          ground arith,
        )
        | inr (v, present) ↦ absurd (ground arith)
      ]

  check_descriptor_complete :
      (u : ℕ) (m : List (List ℕ × Bool)) (d : VirtualFileDescriptor)
      → Round u m d
      → check_descriptor lower d (u, m) ≡ ok (after u m d)
  unfolding check_descriptor
  check_descriptor_complete u m d (v, w, x) = elim (Bool-cases (is_directory d)) [
    | inl directory ↦ let empty = v.empty_directory directory in rw (v.path_ok, x) (ground arith)
    | inr file ↦ rw (v.path_ok, x) (ground arith)
  ]

  -- The rounds together.
  pub record Rounds (u : ℕ) (m : List (List ℕ × Bool)) (ds : List VirtualFileDescriptor)
      : Type 0 where
    pub each : All IsDescriptor ds
    pub short : u + total_units ds ≤ max_total_virtual_path_u16
    pub fresh : Fresh m ds
    pub distinct : Apart lower ds

  Fresh-insert :
      (k : List ℕ) (v : Bool) (m : List (List ℕ × Bool)) (ds : List VirtualFileDescriptor)
      → Fresh (insert k v m) ds
      → All (λ e. k ≢ key e) ds × Fresh m ds
  Fresh-insert k v m [] h = (tt, tt)
  Fresh-insert k v m (d ∷ ds) h =
      let (apart, fresh) = Fresh-insert k v m ds h.1 in
      let here = sym (lookup-insert k (key d) v m) ∙ h.0 in
      elim (Bool-cases (bytes_eq k (key d))) [
        | inl same ↦ let hit = rw same at here in absurd (ground arith)
        | inr other ↦ (
          (λ e. let same = (bytes_eq_iff k (key d)).1 e in absurd (ground arith), apart),
          (rw other at here, fresh),
        )
      ]

  Fresh-insert_apart :
      (k : List ℕ) (v : Bool) (m : List (List ℕ × Bool)) (ds : List VirtualFileDescriptor)
      → All (λ e. k ≢ key e) ds
      → Fresh m ds
      → Fresh (insert k v m) ds
  Fresh-insert_apart k v m [] a f = tt
  Fresh-insert_apart k v m (d ∷ ds) a f = (
    elim (Bool-cases (bytes_eq k (key d))) [
      | inl same ↦ absurd (a.0 ((bytes_eq_iff k (key d)).0 same))
      | inr other ↦ lookup-insert k (key d) v m ∙ rw other f.0
    ],
    Fresh-insert_apart k v m ds a.1 f.1,
  )

  pub check_descriptors_ok :
      (u : ℕ) (m : List (List ℕ × Bool)) (ds : List VirtualFileDescriptor) (u' : ℕ)
      (m' : List (List ℕ × Bool))
      → u ≤ max_total_virtual_path_u16
      → check_descriptors lower ds (u, m) ≡ ok (u', m')
      → Rounds u m ds × ((k : List ℕ) → lookup k m' ≡ known k ds (lookup k m))
  unfolding check_descriptors total_units known
  check_descriptors_ok u m [] u' m' small e =
      let same : m ≡ m' = ground arith in
      (
        record { each = tt; short = omega arith; fresh = tt; distinct = tt },
        λ k. ap (lookup k) (sym same),
      )
  check_descriptors_ok u m (d ∷ ds) u' m' small e =
      let (acc, first, e') = >>=-eq-ok (check_descriptor lower d (u, m)) _ e in
      let ((v, w, x), next) = check_descriptor_ok u m d first in
      let (rest, found) =
        check_descriptors_ok (u + utf16_units d.file_name) (insert (key d) (is_directory d) m) ds u'
          m' w (rw next at e') in
      let (apart, fresh) = Fresh-insert (key d) (is_directory d) m ds rest.fresh in
      (
        record {
          each = (v, rest.each);
          short = omega (arith, rest.short);
          fresh = (x, fresh);
          distinct = (apart, rest.distinct);
        },
        λ k. found k ∙ ap (known k ds) (lookup-insert (key d) k (is_directory d) m),
      )

  pub check_descriptors_complete :
      (u : ℕ) (m : List (List ℕ × Bool)) (ds : List VirtualFileDescriptor)
      → Rounds u m ds
      → (acc : ℕ × List (List ℕ × Bool)) × (check_descriptors lower ds (u, m) ≡ ok acc)
  unfolding check_descriptors total_units
  check_descriptors_complete u m [] r = ((u, m), refl)
  check_descriptors_complete u m (d ∷ ds) r =
      let first = check_descriptor_complete u m d (r.each.0, omega (arith, r.short), r.fresh.0) in
      let (acc, rest) =
        check_descriptors_complete (u + utf16_units d.file_name) (insert (key d) (is_directory d) m)
          ds
          (record {
            each = r.each.1;
            short = omega (arith, r.short);
            fresh = Fresh-insert_apart (key d) (is_directory d) m ds r.distinct.0 r.fresh.1;
            distinct = r.distinct.1;
          }) in
      (acc, rw first rest)

  -- The map knows a directory just if the tree has one.
  known_skip :
      (k : List ℕ) (ds : List VirtualFileDescriptor) (o : Option Bool)
      → All (λ e. k ≢ key e) ds
      → known k ds o ≡ o
  unfolding known
  known_skip k [] o h = refl
  known_skip k (d ∷ ds) o h = elim (Bool-cases (bytes_eq (key d) k)) [
    | inl same ↦ absurd (h.0 (sym ((bytes_eq_iff (key d) k).0 same)))
    | inr other ↦ rw other (known_skip k ds o h.1)
  ]

  pub known_directory :
      (path : List ℕ) (ds : List VirtualFileDescriptor) (o : Option Bool)
      → known (case_fold_path lower path) ds o ≡ some true
      → HasDirectory lower ds path ⊎ (o ≡ some true)
  unfolding known
  known_directory path [] o e = inr e
  known_directory path (d ∷ ds) o e =
      elim (Bool-cases (bytes_eq (key d) (case_fold_path lower path))) [
        | inl same ↦ elim (known_directory path ds (some (is_directory d)) (rw same at e)) [
          | inl later ↦ inl (inr later)
          | inr here ↦
              inl (inl ((bytes_eq_iff (key d) (case_fold_path lower path)).0 same, ground arith))
        ]
        | inr other ↦ elim (known_directory path ds o (rw other at e)) [
          | inl later ↦ inl (inr later)
          | inr before ↦ inr before
        ]
      ]

  pub directory_known :
      (path : List ℕ) (ds : List VirtualFileDescriptor) (o : Option Bool)
      → Apart lower ds
      → HasDirectory lower ds path
      → known (case_fold_path lower path) ds o ≡ some true
  unfolding known
  directory_known path [] o a h = elim h [ ]
  directory_known path (d ∷ ds) o a (inl (same, directory)) =
      let hit = (bytes_eq_iff (key d) (case_fold_path lower path)).1 same in
      rw hit (
        known_skip (case_fold_path lower path) ds (some (is_directory d))
          (subst (λ k. All (λ e. k ≢ key e) ds) same a.0)
        ∙ ap some directory)
  directory_known path (d ∷ ds) o a (inr later) = directory_known path ds _ a.1 later
