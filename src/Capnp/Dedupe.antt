-- ===== src/Capnp/Dedupe.antt =====
-- `dedupeStable`, and what passes the checks.
use tube.Common.{
  ◌≡◌, refl, Bool, true, not, ◌&&◌, List, [], ◌∷◌, if◌then◌else◌, text_eq, arith, text_beq_iff,
}
use tube.Common.Sets.{member}
use tube.Common.Text.{Text}
use tube.Capnp.{CapnpError, Checked, threw, checked, and_then, map_checked, every, dedupe_from}

abbrev pub are_distinct : List Text → Bool
are_distinct [] = true
are_distinct (t ∷ ts) = not (member t ts) && are_distinct ts

member-dedupe_from :
    (x : Text) (seen ts : List Text)
    → member x (dedupe_from seen ts) ≡ (member x ts && not (member x seen))
unfolding dedupe_from member
member-dedupe_from x seen [] = refl
member-dedupe_from x seen (t ∷ ts) =
    ground
      (arith, member-dedupe_from x seen ts, member-dedupe_from x (t ∷ seen) ts, text_beq_iff t x)

pub are_distinct-dedupe_from : (seen ts : List Text) → are_distinct (dedupe_from seen ts) ≡ true
unfolding dedupe_from member
are_distinct-dedupe_from seen [] = refl
are_distinct-dedupe_from seen (t ∷ ts) = ground (
  arith,
  are_distinct-dedupe_from seen ts,
  are_distinct-dedupe_from (t ∷ seen) ts,
  member-dedupe_from t (t ∷ seen) ts,
  text_beq_iff t t,
)

pub every-dedupe_from :
    (f : Text → Bool) (seen ts : List Text)
    → every f ts ≡ true
    → every f (dedupe_from seen ts) ≡ true
unfolding dedupe_from
every-dedupe_from f seen [] e = refl
every-dedupe_from f seen (t ∷ ts) e =
    ground (arith, every-dedupe_from f seen ts, every-dedupe_from f (t ∷ seen) ts, e)

-- A test of what is returned, if anything is.
abbrev pub holds {ℓ} : {A : Type ℓ} → (A → Bool) → Checked A → Bool
holds test (threw e) = true
holds test (checked a) = test a

pub holds-and_then {ℓ κ} :
    {A : Type ℓ} {B : Type κ}
    → (test : B → Bool) (before : A → Bool) (m : Checked A) (f : A → Checked B)
    → holds before m ≡ true
    → ((a : A) → before a ≡ true → holds test (f a) ≡ true)
    → holds test (and_then m f) ≡ true
holds-and_then test before (threw e) f h g = refl
holds-and_then test before (checked a) f h g = g a h

pub holds-map_checked {ℓ κ} :
    {A : Type ℓ} {B : Type κ}
    → (test : B → Bool) (f : A → Checked B) → ((a : A) → holds test (f a) ≡ true)
    → (items : List A) → holds (every test) (map_checked f items) ≡ true
holds-map_checked test f h [] = refl
holds-map_checked test f h (a ∷ rest) = holds-and_then (every test) test (f a) _ (h a) (λ b hb.
    holds-and_then (every test) (every test) (map_checked f rest) _
      (holds-map_checked test f h rest) (λ bs hbs. ground (arith, hb, hbs)))

pub holds-if {ℓ} :
    {A : Type ℓ}
    → (test : A → Bool) (a : A) (e : CapnpError)
    → holds test (if test a then checked a else threw e) ≡ true
holds-if test a e = ground arith

pub holds-anything {ℓ} : {A : Type ℓ} → (m : Checked A) → holds (λ a. true) m ≡ true
holds-anything (threw e) = refl
holds-anything (checked a) = refl
