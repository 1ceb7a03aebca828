-- ===== src/Common/JsMap.antt =====
-- `Map` (and `Set`) as the programs use it: keys in insertion order, `set` on a present key keeps
-- its place, a new key goes to the end.
use mathlib.Core.Path.{subst}
use tube.Common.Tests.{
  ◌≤◌, Bool-cases, inl, inr, ◌+◌, ◌≡◌, refl, Bool, Option, none, some, List, [], ◌∷◌, arith,
  if◌then◌else◌, is_some,
}
use tube.Common.Lists.{length}
use tube.Common.Keys.{Keyed, ◌==◌}

abbrev pub JsMap {ℓ κ} : Type ℓ → Type κ → Type (ℓ ⊔ κ)
JsMap K V = List (K × V)

module _ {ℓ κ} {K : Type ℓ} {V : Type κ} ⦃e : Keyed K⦄ where
  unfoldable pub get : K → JsMap K V → Option V
  get k [] = none
  get k ((j, v) ∷ m) = if j == k then some v else get k m

  unfoldable pub has : K → JsMap K V → Bool
  unfolding get
  has k m = is_some (get k m)

  unfoldable pub set : K → V → JsMap K V → JsMap K V
  set k v [] = (k, v) ∷ []
  set k v ((j, w) ∷ m) = let rest = set k v m in if j == k then (k, v) ∷ m else (j, w) ∷ rest

  unfoldable pub delete : K → JsMap K V → JsMap K V
  delete k [] = []
  delete k ((j, w) ∷ m) = let rest = delete k m in if j == k then rest else (j, w) ∷ rest

  -- `for (const [k, v] of m) base.set(k, v)`
  unfoldable pub set_all : JsMap K V → JsMap K V → JsMap K V
  unfolding set
  set_all [] base = base
  set_all ((k, v) ∷ m) base = set_all m (set k v base)

  -- `m.keys().next().value`
  abbrev pub first_key : JsMap K V → Option K
  first_key [] = none
  first_key ((j, w) ∷ m) = some j

  abbrev pub keys : JsMap K V → List K
  keys [] = []
  keys ((j, w) ∷ m) = j ∷ keys m

  -- No key stands twice.
  abbrev pub IsDistinct : JsMap K V → Type κ
  IsDistinct [] = Unit
  IsDistinct ((j, w) ∷ m) = (get j m ≡ none) × IsDistinct m

module _ {ℓ κ} {K : Type ℓ} {V : Type κ} ⦃e : Keyed K⦄ where
  pub get-set :
      (k j : K) (v : V) (m : JsMap K V) → get j (set k v m) ≡ (if k == j then some v else get j m)
  unfolding get set
  get-set k j v [] = refl
  get-set k j v ((i, w) ∷ m) =
      ground (arith, e.same_iff k j, e.same_iff i k, e.same_iff i j, get-set k j v m)

  pub get-delete :
      (k j : K) (m : JsMap K V) → get j (delete k m) ≡ (if k == j then none else get j m)
  unfolding get delete
  get-delete k j [] = ground arith
  get-delete k j ((i, w) ∷ m) =
      ground (arith, e.same_iff k j, e.same_iff i k, e.same_iff i j, get-delete k j m)

  pub length-set :
      (k : K) (v : V) (m : JsMap K V)
      → length (set k v m) ≡ (if has k m then length m else length m + 1)
  unfolding has set
  length-set k v [] = omega arith
  length-set k v ((i, w) ∷ m) = ground (arith, length-set k v m)

  pub delete_absent : (k : K) (m : JsMap K V) → get k m ≡ none → delete k m ≡ m
  unfolding get delete
  delete_absent k [] h = refl
  delete_absent k ((i, w) ∷ m) h = ground (arith, delete_absent k m)

  pub length-delete :
      (k : K) (m : JsMap K V)
      → IsDistinct m
      → length (delete k m) + (if has k m then 1 else 0) ≡ length m
  unfolding has delete
  length-delete k [] d = omega arith
  length-delete k ((i, w) ∷ m) d =
      ground (arith, e.same_iff i k, length-delete k m d.1, delete_absent k m)

  pub set-IsDistinct : (k : K) (v : V) (m : JsMap K V) → IsDistinct m → IsDistinct (set k v m)
  unfolding get set
  set-IsDistinct k v [] d = (refl, tt)
  set-IsDistinct k v ((i, w) ∷ m) d =
      ground (arith, e.same_iff i k, e.same_iff k i, get-set k i v m, set-IsDistinct k v m d.1)

  pub set_all-IsDistinct : (m base : JsMap K V) → IsDistinct base → IsDistinct (set_all m base)
  unfolding set_all
  set_all-IsDistinct [] base d = d
  set_all-IsDistinct ((k, v) ∷ m) base d =
      set_all-IsDistinct m (set k v base) (set-IsDistinct k v base d)

  pub get-set_all :
      (k : K) (m base : JsMap K V)
      → IsDistinct m
      → get k (set_all m base) ≡ (if has k m then get k m else get k base)
  unfolding get has set_all
  get-set_all k [] base d = refl
  get-set_all k ((j, v) ∷ m) base (absent, d) =
      ground (arith, get-set_all k m (set j v base) d, get-set j k v base, e.same_iff j k, absent)

  pub delete-IsDistinct : (k : K) (m : JsMap K V) → IsDistinct m → IsDistinct (delete k m)
  unfolding get delete
  delete-IsDistinct k [] d = tt
  delete-IsDistinct k ((i, w) ∷ m) d =
      ground (arith, e.same_iff i k, get-delete k i m, delete-IsDistinct k m d.1)

  pub length-set_present :
      (k : K) (v w : V) (m : JsMap K V) → get k m ≡ some v → length (set k w m) ≡ length m
  unfolding get set
  length-set_present k v w [] h = cc
  length-set_present k v w ((i, x) ∷ m) h = ground (arith, length-set_present k v w m)

  pub length-set-le : (k : K) (v : V) (m : JsMap K V) → length (set k v m) ≤ length m + 1
  length-set-le k v m = ground (arith, length-set k v m)

  pub delete_first :
      (k : K) (v : V) (m : JsMap K V) → IsDistinct ((k, v) ∷ m) → delete k ((k, v) ∷ m) ≡ m
  unfolding delete
  delete_first k v m d = ground (arith, e.same_iff k k, delete_absent k m d.0)

-- Every entry that a look-up finds has the property.
abbrev pub Every {ℓ κ μ} :
    {K : Type ℓ} {V : Type κ} ⦃e : Keyed K⦄ → (K → V → Type μ) → JsMap K V → Type (ℓ ⊔ κ ⊔ μ)
Every {K} {V} P m = (k : K) (v : V) → get k m ≡ some v → P k v

module _ {ℓ κ μ} {K : Type ℓ} {V : Type κ} ⦃e : Keyed K⦄ (P : K → V → Type μ) where
  pub Every-empty : Every P []
  unfolding get
  Every-empty k v h = absurd (ground arith)

  pub Every-delete : (k : K) (m : JsMap K V) → Every P m → Every P (delete k m)
  Every-delete k m all j v h = all j v (ground (arith, get-delete k j m))

  pub Every-set : (k : K) (v : V) (m : JsMap K V) → P k v → Every P m → Every P (set k v m)
  Every-set k v m p all j w h = elim (Bool-cases (k == j)) [
    | inl same ↦
        let e₁ : k ≡ j = (e.same_iff k j).0 same in
        let e₂ : v ≡ w = ground (arith, get-set k j v m) in subst (λ i. P i w) e₁ (subst (P k) e₂ p)
    | inr other ↦ all j w (ground (arith, get-set k j v m))
  ]
