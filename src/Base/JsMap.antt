-- ===== src/Base/JsMap.antt =====
-- JavaScript's `Map` with string keys: its entries in insertion order. A `set` of a key that is
-- there keeps its place.
use ppvda.Base.{subst}
use Prim.Native.Nat.{◌+◌, ◌≤◌, ◌<◌}
use Prim.Native.String.{String}
use mathlib.Core.Path.{◌≡◌, refl}
use mathlib.Core.Logic.{ite, if_pos, if_neg}
use mathlib.Core.List.{List, [], ◌∷◌, map}
use mathlib.Core.Option.{Option, none, some}
use native.Mathlib.Omega.{arith}
use ppvda.Base.Tests.{string_discrete}
use ppvda.Base.Lists.{length, All}

module _ {ℓ} {V : Type ℓ} where
  unfoldable pub get : String → List (String × V) → Option V
  get k [] = none
  get k ((j, v) ∷ m) = ite (string_discrete j k) (some v) (get k m)

  unfoldable pub set : String → V → List (String × V) → List (String × V)
  set k v [] = (k, v) ∷ []
  set k v ((j, w) ∷ m) = ite (string_discrete j k) ((j, v) ∷ m) ((j, w) ∷ set k v m)

  unfoldable pub delete : String → List (String × V) → List (String × V)
  delete k [] = []
  delete k ((j, v) ∷ m) = let rest = delete k m in ite (string_discrete j k) rest ((j, v) ∷ rest)

  abbrev pub keys : List (String × V) → List String
  keys m = map (λ e. e.0) m

  pub get-set :
      (k j : String) (v : V) (m : List (String × V))
      → get j (set k v m) ≡ ite (string_discrete k j) (some v) (get j m)
  unfolding get set
  get-set k j v [] = refl
  get-set k j v ((i, w) ∷ m) = ground (arith, get-set k j v m)

  pub get-delete :
      (k j : String) (m : List (String × V))
      → get j (delete k m) ≡ ite (string_discrete k j) none (get j m)
  unfolding get delete
  get-delete k j [] = ground arith
  get-delete k j ((i, w) ∷ m) = ground (arith, get-delete k j m)

  pub length-delete-le : (k : String) (m : List (String × V)) → length (delete k m) ≤ length m
  unfolding delete
  length-delete-le k [] = omega arith
  length-delete-le k ((j, v) ∷ m) = ground (arith, length-delete-le k m)

  pub length-delete-lt :
      (k : String) (v : V) (m : List (String × V))
      → get k m ≡ some v
      → length (delete k m) < length m
  unfolding get delete
  length-delete-lt k v [] h = cc
  length-delete-lt k v ((j, w) ∷ m) h = ground (arith, length-delete-le k m, length-delete-lt k v m)

  pub length-set : (k : String) (v : V) (m : List (String × V)) → length (set k v m) ≤ length m + 1
  unfolding set
  length-set k v [] = omega arith
  length-set k v ((j, w) ∷ m) = ground (arith, length-set k v m)

-- No key stands twice, as in every map that `set` and `delete` build.
module _ {ℓ} {V : Type ℓ} where
  abbrev pub Unique : List (String × V) → Type ℓ
  Unique [] = Unit
  Unique ((k, v) ∷ m) = (get k m ≡ none) × Unique m

  pub set-Unique : (k : String) (v : V) (m : List (String × V)) → Unique m → Unique (set k v m)
  unfolding set get
  set-Unique k v [] u = (refl, tt)
  set-Unique k v ((j, w) ∷ m) u = elim (string_discrete j k) [
    | yes e ↦ rw (if_pos _ e) u
    | no e ↦ rw (if_neg _ e) (ground (arith, get-set k j v m, u.0), set-Unique k v m u.1)
  ]

  pub delete-Unique : (k : String) (m : List (String × V)) → Unique m → Unique (delete k m)
  unfolding delete
  delete-Unique k [] u = tt
  delete-Unique k ((j, w) ∷ m) u = elim (string_discrete j k) [
    | yes e ↦ rw (if_pos _ e) (delete-Unique k m u.1)
    | no e ↦ rw (if_neg _ e) (ground (arith, get-delete k j m, u.0), delete-Unique k m u.1)
  ]

  -- What a walk over the entries sees is what `get` gives.
  abbrev pub Listed : List (String × V) → List (String × V) → Type ℓ
  Listed m es = All (λ e. get e.0 m ≡ some e.1) es

  pub Listed-cons :
      (k : String) (v : V) (m es : List (String × V))
      → get k es ≡ none
      → Listed m es
      → Listed ((k, v) ∷ m) es
  unfolding get
  Listed-cons k v m [] n h = tt
  Listed-cons k v m ((j, w) ∷ es) n h =
      (ground (arith, h.0), Listed-cons k v m es (ground arith) h.1)

  pub Listed-self : (m : List (String × V)) → Unique m → Listed m m
  unfolding get
  Listed-self [] u = tt
  Listed-self ((k, v) ∷ m) u = (ground arith, Listed-cons k v m m u.0 (Listed-self m u.1))

  pub Listed-delete :
      (k : String) (m es : List (String × V))
      → get k es ≡ none
      → Listed m es
      → Listed (delete k m) es
  unfolding get
  Listed-delete k m [] n h = tt
  Listed-delete k m ((j, w) ∷ es) n h =
      (ground (arith, h.0, get-delete k j m), Listed-delete k m es (ground arith) h.1)

  pub keys-set :
      (k : String) (v w : V) (m : List (String × V)) → get k m ≡ some v → keys (set k w m) ≡ keys m
  unfolding get set
  keys-set k v w [] h = cc
  keys-set k v w ((j, x) ∷ m) h = ground (arith, keys-set k v w m)

  pub length-set_of_none :
      (k : String) (v : V) (m : List (String × V))
      → get k m ≡ none
      → length (set k v m) ≡ length m + 1
  unfolding get set
  length-set_of_none k v [] h = omega arith
  length-set_of_none k v ((j, x) ∷ m) h = ground (arith, length-set_of_none k v m)

  pub length-set_of_some :
      (k : String) (v w : V) (m : List (String × V))
      → get k m ≡ some v
      → length (set k w m) ≡ length m
  unfolding get set
  length-set_of_some k v w [] h = cc
  length-set_of_some k v w ((j, x) ∷ m) h = ground (arith, length-set_of_some k v w m)

-- A property of every entry.
module _ {ℓ κ} {V : Type ℓ} (P : String × V → Type κ) where
  pub set-All :
      (k : String) (v : V) (m : List (String × V))
      → ((j : String) → j ≡ k → P (j, v))
      → All P m
      → All P (set k v m)
  unfolding set
  set-All k v [] p h = (p k refl, tt)
  set-All k v ((j, w) ∷ m) p h = elim (string_discrete j k) [
    | yes e ↦ rw (if_pos _ e) (p j e, h.1)
    | no e ↦ rw (if_neg _ e) (h.0, set-All k v m p h.1)
  ]

  pub delete-All : (k : String) (m : List (String × V)) → All P m → All P (delete k m)
  unfolding delete
  delete-All k [] h = tt
  delete-All k ((j, w) ∷ m) h = elim (string_discrete j k) [
    | yes e ↦ rw (if_pos _ e) (delete-All k m h.1)
    | no e ↦ rw (if_neg _ e) (h.0, delete-All k m h.1)
  ]

  pub get-All :
      (k : String) (v : V) (m : List (String × V))
      → All P m
      → get k m ≡ some v
      → (j : String) × (j ≡ k) × P (j, v)
  unfolding get
  get-All k v [] h g = cc
  get-All k v ((j, w) ∷ m) h g = elim (string_discrete j k) [
    | yes e ↦ let same : w ≡ v = ground arith in (j, e, subst (λ x. P (j, x)) same h.0)
    | no e ↦ get-All k v m h.1 (ground arith)
  ]
