-- ===== src/Edge/Router/First.antt =====
-- `findRoute` against one pass over the routes, where every segment of the path can be decoded.
use tube.Common.{Bool, ◌&&◌, Option, none, some, List, [], ◌∷◌, if◌then◌else◌, ◌==◌, text_eq}
use tube.Common.JsMap.{JsMap}
use tube.Common.Sets.{add_all}
use tube.Common.Text.{Text, codes, sort}
use tube.Edge.{not_found}
use tube.Edge.Paths.{split_path}
use tube.Edge.Paths.Fits.{fits, params_of}
use tube.Edge.Router.{Route, MatchedRoute, RouteResult, answer, options_answer, or_not_allowed}

module _ {Entry : Type 0} (plain : Text → Text) where
  abbrev pub route_fits : Text → Route Entry → Bool
  route_fits path r = fits (split_path r.path) (split_path path)

  abbrev pub matched_by : Text → Route Entry → MatchedRoute Entry
  matched_by path r = record {
    route = r;
    params = params_of plain (split_path r.path) (split_path path) [];
  }

  -- The first route that both fits the path and has the method.
  pub first_route : Text → Text → List (Route Entry) → Option (MatchedRoute Entry)
  first_route method path [] = none
  first_route method path (r ∷ routes) =
      let rest = first_route method path routes in
      if route_fits path r && r.method == method then some (matched_by path r) else rest

  -- The methods of the routes that fit.
  pub fitting_methods : Text → List (Route Entry) → List Text
  fitting_methods path [] = []
  fitting_methods path (r ∷ routes) =
      let rest = fitting_methods path routes in if route_fits path r then r.method ∷ rest else rest

  fitting : Text → List (Route Entry) → List (MatchedRoute Entry)
  fitting path [] = []
  fitting path (r ∷ routes) =
      let rest = fitting path routes in if route_fits path r then matched_by path r ∷ rest else rest

-- The result from the methods of the routes that fit and the first of them that has the method.
pub answer_of :
    {Entry Value : Type 0}
    → Text
    → List Text
    → Option (MatchedRoute Entry)
    → RouteResult Entry Value
unfolding or_not_allowed
answer_of method [] first = answer not_found
answer_of method (m ∷ methods) first =
    let allowed = sort (add_all (m ∷ methods) []) in
    if method == codes "OPTIONS"
    then answer (options_answer allowed)
    else or_not_allowed allowed first
