-- ===== src/Common/Sets.antt =====
-- JavaScript's `Set` of texts: a list in insertion order.
use tube.Common.Tests.{
  ◌≡◌, refl, Bool, false, not, ◌&&◌, ◌||◌, List, [], ◌∷◌, ◌++◌, arith, if◌then◌else◌,
}
use tube.Common.Keys.{◌==◌, text_eq, text_beq_iff}
use tube.Common.Text.{Text}
use tube.Common.JsMap
use tube.Common.JsMap.{JsMap}

unfoldable pub member : Text → List Text → Bool
member x [] = false
member x (y ∷ ys) = y == x || member x ys

unfoldable pub add : Text → List Text → List Text
unfolding member
add x s = if member x s then s else s ++ x ∷ []

unfoldable pub remove : Text → List Text → List Text
remove x [] = []
remove x (y ∷ ys) = let rest = remove x ys in if y == x then rest else y ∷ rest

unfoldable pub add_all : List Text → List Text → List Text
unfolding add
add_all [] s = s
add_all (x ∷ xs) s = add_all xs (add x s)

pub member-append : (x : Text) (s t : List Text) → member x (s ++ t) ≡ (member x s || member x t)
unfolding member
member-append x [] t = refl
member-append x (y ∷ s) t = ground (arith, member-append x s t)

pub member-add : (x y : Text) (s : List Text) → member x (add y s) ≡ (y == x || member x s)
unfolding add
member-add x y s = ground (arith, member-append x s (y ∷ []), text_beq_iff y x)

pub member-remove :
    (x y : Text) (s : List Text) → member x (remove y s) ≡ (not (y == x) && member x s)
unfolding member remove
member-remove x y [] = ground arith
member-remove x y (z ∷ s) =
    ground (arith, member-remove x y s, text_beq_iff y x, text_beq_iff z y, text_beq_iff z x)

pub member-add_all :
    (x : Text) (xs s : List Text) → member x (add_all xs s) ≡ (member x xs || member x s)
unfolding member add_all
member-add_all x [] s = ground arith
member-add_all x (y ∷ xs) s = ground (arith, member-add_all x xs (add y s), member-add x y s)

pub member-keys :
    {V : Type 0} (k : Text) (m : JsMap Text V) → member k (JsMap.keys m) ≡ JsMap.has k m
unfolding member JsMap.get JsMap.has
member-keys k [] = refl
member-keys k ((j, v) ∷ m) = ground (arith, member-keys k m)
