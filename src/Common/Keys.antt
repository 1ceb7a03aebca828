-- ===== src/Common/Keys.antt =====
-- Values that `===` compares: an interface of a Boolean equality that decides the path, with
-- instances for numbers and for texts (lists of code units).
use tube.Common.Tests.{
  ℕ, ◌≡◌, refl, ◌↔◌, ◌≢◌, Bool, true, false, ◌&&◌, List, [], ◌∷◌, arith, eqb, eqb_iff,
}

pub record Keyed {ℓ} (A : Type ℓ) : Type ℓ where
  pub same : A → A → Bool
  pub same_iff : (x y : A) → (same x y ≡ true) ↔ (x ≡ y)

infix 50 ◌==◌
abbrev pub ◌==◌ {ℓ} : {A : Type ℓ} ⦃k : Keyed A⦄ → A → A → Bool
◌==◌ ⦃k⦄ = k.same

module _ {ℓ} {A : Type ℓ} ⦃k : Keyed A⦄ where
  pub beq_self : (a : A) → (a == a) ≡ true
  beq_self a = (k.same_iff a a).1 refl

  pub beq_ne : (a b : A) → a ≢ b → (a == b) ≡ false
  beq_ne a b h = ground (arith, k.same_iff a b)

instance abbrev pub nat_eq : Keyed ℕ
nat_eq = record { same = eqb; same_iff = eqb_iff }

module _ {ℓ} {A : Type ℓ} ⦃k : Keyed A⦄ where
  abbrev pub list_beq : List A → List A → Bool
  list_beq [] [] = true
  list_beq [] (y ∷ ys) = false
  list_beq (x ∷ xs) [] = false
  list_beq (x ∷ xs) (y ∷ ys) = x == y && list_beq xs ys

  pub list_beq_iff : (xs ys : List A) → (list_beq xs ys ≡ true) ↔ (xs ≡ ys)
  list_beq_iff [] [] = ground arith
  list_beq_iff [] (y ∷ ys) = ground arith
  list_beq_iff (x ∷ xs) [] = ground arith
  list_beq_iff (x ∷ xs) (y ∷ ys) = ground (arith, k.same_iff x y, list_beq_iff xs ys)

instance abbrev pub text_eq : Keyed (List ℕ)
text_eq = record { same = list_beq; same_iff = list_beq_iff }

pub text_beq_iff : (s t : List ℕ) → (list_beq s t ≡ true) ↔ (s ≡ t)
text_beq_iff s t = list_beq_iff s t
