-- ===== src/Common/Map.antt =====
-- `std::collections::HashMap` as an association list whose keys are distinct: what the program
-- sees of a map is `get`, `insert`, `retain`, `len`, its values, and a write through a shared value.
use clip_ferry.Common.Tests.{Eq, if◌then◌else◌, Bool-cases}
use clip_ferry.Common.Lists.{length}
use Prim.Native.Nat.{suc, ◌≤◌}
use mathlib.Core.Path.{◌≡◌, refl, subst₂}
use mathlib.Core.Logic.{inl, inr}
use mathlib.Core.Bool.{Bool, true}
use mathlib.Core.Option.{Option, none, some, some-injective}
use mathlib.Core.Option
use mathlib.Core.List.{List, [], ◌∷◌}
use native.Mathlib.Omega.{arith}

-- `option.filter(test)`
abbrev pub keep_if {ℓ} : {V : Type ℓ} → (V → Bool) → Option V → Option V
keep_if p none = none
keep_if p (some v) = if p v then some v else none

module _ {ℓ} {V : Type ℓ} where
  abbrev pub values {κ} : {K : Type κ} → List (K × V) → List V
  values [] = []
  values ((k, v) ∷ m) = v ∷ values m

  unfoldable pub retain {κ} : {K : Type κ} → (V → Bool) → List (K × V) → List (K × V)
  retain p [] = []
  retain p ((k, v) ∷ m) = let rest = retain p m in if p v then (k, v) ∷ rest else rest

  pub length-retain-le {κ} :
      {K : Type κ} (p : V → Bool) (m : List (K × V)) → length (retain p m) ≤ length m
  unfolding retain
  length-retain-le p [] = omega arith
  length-retain-le p ((k, v) ∷ m) = ground (arith, length-retain-le p m)

module _ {ℓ κ} {K : Type κ} {V : Type ℓ} ⦃e : Eq K⦄ where
  unfoldable pub lookup : K → List (K × V) → Option V
  lookup k [] = none
  lookup k ((j, v) ∷ m) = if e.beq j k then some v else lookup k m

  unfoldable pub insert : K → V → List (K × V) → List (K × V)
  insert k v [] = (k, v) ∷ []
  insert k v ((j, w) ∷ m) = if e.beq j k then (k, v) ∷ m else (j, w) ∷ insert k v m

  -- The value at `k` is changed in place, as by a write through a shared reference to it.
  unfoldable pub modify : K → (V → V) → List (K × V) → List (K × V)
  modify k f [] = []
  modify k f ((j, v) ∷ m) = if e.beq j k then (j, f v) ∷ m else (j, v) ∷ modify k f m

  abbrev pub Distinct : List (K × V) → Type ℓ
  Distinct [] = Unit {ℓ}
  Distinct ((k, v) ∷ m) = (lookup k m ≡ none) × Distinct m

  pub lookup-insert :
      (k j : K) (v : V) (m : List (K × V))
      → lookup j (insert k v m) ≡ (if e.beq k j then some v else lookup j m)
  unfolding lookup insert
  lookup-insert k j v [] = refl
  lookup-insert k j v ((i, w) ∷ m) =
      ground (arith, e.beq_iff k j, e.beq_iff i k, e.beq_iff i j, lookup-insert k j v m)

  pub insert-Distinct : (k : K) (v : V) (m : List (K × V)) → Distinct m → Distinct (insert k v m)
  unfolding lookup insert
  insert-Distinct k v [] d = (refl, tt)
  insert-Distinct k v ((i, w) ∷ m) d =
      ground (arith, e.beq_iff i k, e.beq_iff k i, lookup-insert k i v m, insert-Distinct k v m d.1)

  pub length-insert_absent :
      (k : K) (v : V) (m : List (K × V))
      → lookup k m ≡ none
      → length (insert k v m) ≡ suc (length m)
  unfolding lookup insert
  length-insert_absent k v [] h = refl
  length-insert_absent k v ((i, w) ∷ m) h = ground (arith, length-insert_absent k v m)

  pub lookup-modify :
      (k j : K) (f : V → V) (m : List (K × V))
      → lookup j (modify k f m) ≡ (if e.beq k j then Option.map f (lookup j m) else lookup j m)
  unfolding lookup modify
  lookup-modify k j f [] = elim (Bool-cases (e.beq k j)) [ inl t ↦ rw t | inr t ↦ rw t ]
  lookup-modify k j f ((i, w) ∷ m) =
      ground (arith, e.beq_iff k j, e.beq_iff i k, e.beq_iff i j, lookup-modify k j f m)

  pub modify-Distinct :
      (k : K) (f : V → V) (m : List (K × V)) → Distinct m → Distinct (modify k f m)
  unfolding lookup modify
  modify-Distinct k f [] d = tt
  modify-Distinct k f ((i, w) ∷ m) d =
      ground (arith, e.beq_iff k i, lookup-modify k i f m, modify-Distinct k f m d.1)

  pub length-modify : (k : K) (f : V → V) (m : List (K × V)) → length (modify k f m) ≡ length m
  unfolding modify
  length-modify k f [] = refl
  length-modify k f ((i, w) ∷ m) = ground (arith, length-modify k f m)

  lookup-retain-none :
      (p : V → Bool) (k : K) (m : List (K × V)) → lookup k m ≡ none → lookup k (retain p m) ≡ none
  unfolding lookup retain
  lookup-retain-none p k [] h = refl
  lookup-retain-none p k ((i, w) ∷ m) h = ground (arith, lookup-retain-none p k m)

  pub lookup-retain :
      (p : V → Bool) (k : K) (m : List (K × V))
      → Distinct m
      → lookup k (retain p m) ≡ keep_if p (lookup k m)
  unfolding lookup retain
  lookup-retain p k [] d = refl
  lookup-retain p k ((i, w) ∷ m) d =
      ground (arith, e.beq_iff i k, lookup-retain p k m d.1, lookup-retain-none p k m)

  pub retain-Distinct : (p : V → Bool) (m : List (K × V)) → Distinct m → Distinct (retain p m)
  unfolding lookup retain
  retain-Distinct p [] d = tt
  retain-Distinct p ((i, w) ∷ m) d =
      ground (arith, lookup-retain-none p i m, retain-Distinct p m d.1)

-- Something holds of every entry.
abbrev pub Entries {ℓ κ μ} : {K : Type κ} {V : Type ℓ} → (K → V → Type μ) → List (K × V) → Type μ
Entries P [] = Unit {μ}
Entries P ((k, v) ∷ m) = P k v × Entries P m

module _ {ℓ κ μ} {K : Type κ} {V : Type ℓ} (P : K → V → Type μ) where
  pub Entries-mono {ν} :
      (Q : K → V → Type ν) (m : List (K × V))
      → ((k : K) (v : V) → P k v → Q k v)
      → Entries P m
      → Entries Q m
  Entries-mono Q [] f h = tt
  Entries-mono Q ((k, v) ∷ m) f h = (f k v h.0, Entries-mono Q m f h.1)

  -- What is kept passed the test.
  pub Entries-retain {ν} :
      (Q : K → V → Type ν) (p : V → Bool) (m : List (K × V))
      → ((k : K) (v : V) → p v ≡ true → P k v → Q k v)
      → Entries P m
      → Entries Q (retain p m)
  unfolding retain
  Entries-retain Q p [] f h = tt
  Entries-retain Q p ((k, v) ∷ m) f h = elim (Bool-cases (p v)) [
    | inl keep ↦ rw keep (f k v keep h.0, Entries-retain Q p m f h.1)
    | inr drop ↦ rw drop (Entries-retain Q p m f h.1)
  ]

module _ {ℓ κ μ} {K : Type κ} {V : Type ℓ} ⦃e : Eq K⦄ (P : K → V → Type μ) where
  pub Entries-insert :
      (k : K) (v : V) (m : List (K × V)) → P k v → Entries P m → Entries P (insert k v m)
  unfolding insert
  Entries-insert k v [] p h = (p, tt)
  Entries-insert k v ((j, w) ∷ m) p h = elim (Bool-cases (e.beq j k)) [
    | inl hit ↦ rw hit (p, h.1)
    | inr miss ↦ rw miss (h.0, Entries-insert k v m p h.1)
  ]

  pub Entries-modify :
      (k : K) (f : V → V) (m : List (K × V))
      → ((j : K) (v : V) → P j v → P j (f v))
      → Entries P m
      → Entries P (modify k f m)
  unfolding modify
  Entries-modify k f [] g h = tt
  Entries-modify k f ((j, w) ∷ m) g h = elim (Bool-cases (e.beq j k)) [
    | inl hit ↦ rw hit (g j w h.0, h.1)
    | inr miss ↦ rw miss (h.0, Entries-modify k f m g h.1)
  ]

  pub Entries-lookup :
      (k : K) (m : List (K × V)) {v : V} → lookup k m ≡ some v → Entries P m → P k v
  unfolding lookup
  Entries-lookup k [] q h = cc
  Entries-lookup k ((j, w) ∷ m) {v} q h = elim (Bool-cases (e.beq j k)) [
    | inl hit ↦
        let same : j ≡ k = (e.beq_iff j k).0 hit in
        let value : w ≡ v = some-injective w v (rw hit at q) in subst₂ P same value h.0
    | inr miss ↦ Entries-lookup k m (rw miss at q) h.1
  ]
