-- ===== src/Edge/Paths/Fits.antt =====
-- Which paths a route fits, where every segment can be decoded.
use tube.Common.{
  suc, ◌≡◌, refl, ap, Bool, true, false, ◌&&◌, ◌||◌, some, List, [], ◌∷◌, if◌then◌else◌, ◌==◌,
  text_eq, arith, eqb_iff, length, drop,
}
use tube.Common.JsMap
use tube.Common.JsMap.{JsMap}
use tube.Common.Text.{Text, codes, starts_with}
use tube.Edge.Paths.{
  Matching, mismatch, matched, bind_param, match_parts, match_route_path, split_path,
}

-- Whether the segments of a path fit those of a route.
pub fits : List Text → List Text → Bool
fits [] [] = true
fits [] (a ∷ actual) = false
fits (e ∷ expected) [] = false
fits (e ∷ expected) (a ∷ actual) = (starts_with (codes ":") e || e == a) && fits expected actual

-- What the segments of a fitting path give to the parameters of the route.
pub params_of : (Text → Text) → List Text → List Text → JsMap Text Text → JsMap Text Text
params_of plain (e ∷ expected) (a ∷ actual) params =
    params_of plain expected actual
      (if starts_with (codes ":") e then JsMap.set (drop 1 e) (plain a) params else params)
params_of plain expected actual params = params

abbrev pub matched_if : Bool → JsMap Text Text → Matching
matched_if true params = matched params
matched_if false params = mismatch

match_parts-fits :
    (plain : Text → Text) (expected actual : List Text) (params : JsMap Text Text)
    → match_parts (λ s. some (plain s)) expected actual params
      ≡ matched_if (fits expected actual) (params_of plain expected actual params)
unfolding match_parts bind_param fits params_of
match_parts-fits plain [] [] params = refl
match_parts-fits plain [] (a ∷ actual) params = refl
match_parts-fits plain (e ∷ expected) [] params = refl
match_parts-fits plain (e ∷ expected) (a ∷ actual) params = ground (
  arith,
  match_parts-fits plain expected actual params,
  match_parts-fits plain expected actual (JsMap.set (drop 1 e) (plain a) params),
)

length-fits :
    (expected actual : List Text) → fits expected actual ≡ true → length expected ≡ length actual
unfolding fits
length-fits [] [] h = refl
length-fits [] (a ∷ actual) h = cc
length-fits (e ∷ expected) [] h = cc
length-fits (e ∷ expected) (a ∷ actual) h = ap suc (length-fits expected actual (ground arith))

module _ (plain : Text → Text) where
  pub match_route_path-fits :
      (route_path path : Text)
      → match_route_path (λ s. some (plain s)) route_path path
        ≡ matched_if
            (fits (split_path route_path) (split_path path))
            (params_of plain (split_path route_path) (split_path path) [])
  unfolding match_route_path
  match_route_path-fits route_path path =
      let expected = split_path route_path in
      let actual = split_path path in
      ground (
        arith,
        match_parts-fits plain expected actual [],
        length-fits expected actual,
        eqb_iff (length expected) (length actual),
      )
