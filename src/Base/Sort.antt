-- ===== src/Base/Sort.antt =====
-- `Array.prototype.sort`, which is stable: insertion of each entry before the entries that must not
-- stand before it.
use mathlib.Core.List.{Perm}
use mathlib.Core.List.Perm
use ppvda.Base.{All, Bool-cases, inl, inr, ◌≡◌, Bool, true, false, List, [], ◌∷◌, if◌then◌else◌}

module _ {ℓ} {A : Type ℓ} (le : A → A → Bool) where
  unfoldable pub insert : A → List A → List A
  insert a [] = a ∷ []
  insert a (b ∷ bs) = if le a b then a ∷ b ∷ bs else b ∷ insert a bs

  unfoldable pub sort_by : List A → List A
  unfolding insert
  sort_by [] = []
  sort_by (a ∷ rest) = insert a (sort_by rest)

  pub insert-perm : (a : A) (l : List A) → Perm (insert a l) (a ∷ l)
  unfolding insert
  insert-perm a [] = Perm.refl (a ∷ [])
  insert-perm a (b ∷ bs) = elim (Bool-cases (le a b)) [
    | inl first ↦ rw first (Perm.refl (a ∷ b ∷ bs))
    | inr later ↦ rw later (Perm.trans (Perm.cons b (insert-perm a bs)) (Perm.swap a b bs))
  ]

  pub sort_by-perm : (l : List A) → Perm (sort_by l) l
  unfolding sort_by
  sort_by-perm [] = Perm.refl []
  sort_by-perm (a ∷ rest) =
      Perm.trans (insert-perm a (sort_by rest)) (Perm.cons a (sort_by-perm rest))

  -- Each entry may stand before the next one.
  abbrev pub IsSorted : List A → Type 0
  IsSorted [] = Unit
  IsSorted (a ∷ []) = Unit
  IsSorted (a ∷ b ∷ bs) = (le a b ≡ true) × IsSorted (b ∷ bs)

module _ {ℓ} {A : Type ℓ} (le : A → A → Bool)
    (total : (a b : A) → le a b ≡ false → le b a ≡ true) where
  insert-IsSorted : (a : A) (l : List A) → IsSorted le l → IsSorted le (insert le a l)
  unfolding insert
  insert-IsSorted a [] h = tt
  insert-IsSorted a (b ∷ []) h = elim (Bool-cases (le a b)) [
    | inl first ↦ rw first (first, tt)
    | inr later ↦ rw later (total a b later, tt)
  ]
  insert-IsSorted a (b ∷ c ∷ bs) h = elim (Bool-cases (le a b)) [
    | inl first ↦ rw first (first, h)
    | inr later ↦ elim (Bool-cases (le a c)) [
      | inl second ↦ rw (later, second) (total a b later, (second, h.1))
      | inr third ↦
          let rest = insert-IsSorted a (c ∷ bs) h.1 in rw (later, third) (h.0, (rw third at rest))
    ]
  ]

  pub sort_by-IsSorted : (l : List A) → IsSorted le (sort_by le l)
  unfolding sort_by
  sort_by-IsSorted [] = tt
  sort_by-IsSorted (a ∷ rest) = insert-IsSorted a (sort_by le rest) (sort_by-IsSorted rest)

module _ {ℓ κ} {A : Type ℓ} (le : A → A → Bool) (P : A → Type κ) where
  insert-All : (a : A) (l : List A) → P a → All P l → All P (insert le a l)
  unfolding insert
  insert-All a [] p h = (p, tt)
  insert-All a (b ∷ bs) p h = elim (Bool-cases (le a b)) [
    | inl first ↦ rw first (p, h)
    | inr later ↦ rw later (h.0, insert-All a bs p h.1)
  ]

  pub sort_by-All : (l : List A) → All P l → All P (sort_by le l)
  unfolding sort_by
  sort_by-All [] h = tt
  sort_by-All (a ∷ rest) h = insert-All a (sort_by le rest) h.0 (sort_by-All rest h.1)

  All-insert : (a : A) (l : List A) → All P (insert le a l) → P a × All P l
  unfolding insert
  All-insert a [] h = h
  All-insert a (b ∷ bs) h = elim (Bool-cases (le a b)) [
    | inl first ↦ (rw first at h)
    | inr later ↦
        let (pb, rest) = (rw later at h) in let (pa, pbs) = All-insert a bs rest in (pa, (pb, pbs))
  ]

  pub All-sort_by : (l : List A) → All P (sort_by le l) → All P l
  unfolding sort_by
  All-sort_by [] h = tt
  All-sort_by (a ∷ rest) h =
      let (pa, more) = All-insert a (sort_by le rest) h in (pa, All-sort_by rest more)
