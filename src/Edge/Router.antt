-- ===== src/Edge/Router.antt =====
-- `findRoute`: the route of a request, or the answer that there is none.
pub mod First
use tube.Common.{
  ℕ, suc, ◌+◌, ◌-◌, Bool, true, false, not, ◌&&◌, ◌||◌, Option, none, some, List, [], ◌∷◌, ◌++◌,
  leb, if◌then◌else◌, map, ◌==◌, text_eq,
}
use tube.Common.JsMap
use tube.Common.JsMap.{JsMap}
use tube.Common.Sets.{add_all}
use tube.Common.Text.{Text, codes, join, sort}
use tube.Edge.{Attempt, done, thrown, Response, Request, not_found, json_error, no_body}
use tube.Edge.Paths.{
  Matching, mismatch, matched, malformed, match_route_path, split_path, relative_path_from_parts,
}

-- `toUpperCase`, of ASCII text.
abbrev upper_code : ℕ → ℕ
upper_code c = if leb 97 c && leb c 122 then c - 32 else c

unfoldable pub to_upper : Text → Text
to_upper s = map upper_code s

-- `Entry` is what a route has besides its method and its path: its schemas and its handler.
pub record Route (Entry : Type 0) : Type 0 where
  pub method : Text
  pub path : Text
  pub entry : Entry

pub record MatchedRoute (Entry : Type 0) : Type 0 where
  pub route : Route Entry
  pub params : JsMap Text Text

pub data RouteResult (Entry Value : Type 0) : Type 0 where
  found : MatchedRoute Entry → RouteResult Entry Value
  answer : Response Value → RouteResult Entry Value

pub record ServeConfig (Entry : Type 0) : Type 0 where
  pub name : Text
  pub path_prefix : Option Text
  pub routes : List (Route Entry)

-- `decodeURIComponent` throws a URIError.
abbrev pub uri_malformed : Text
uri_malformed = codes "URI malformed"

abbrev allow_headers : List Text → JsMap Text Text
allow_headers methods = (codes "Allow", join (codes ", ") methods) ∷ []

module _ {Entry : Type 0} where
  keep_match :
      Matching
      → Route Entry
      → Attempt (List (MatchedRoute Entry))
      → Attempt (List (MatchedRoute Entry))
  keep_match malformed r rest = thrown uri_malformed
  keep_match mismatch r rest = rest
  keep_match (matched params) r (thrown message) = thrown message
  keep_match (matched params) r (done ms) = done (record { route = r; params = params } ∷ ms)

  -- The routes that the path matches, in their order.
  pub path_matches :
      (Text → Option Text) → Text → List (Route Entry) → Attempt (List (MatchedRoute Entry))
  unfolding keep_match
  path_matches decode path [] = done []
  path_matches decode path (r ∷ routes) =
      keep_match (match_route_path decode r.path path) r (path_matches decode path routes)

  pub methods_of : List (MatchedRoute Entry) → List Text
  methods_of [] = []
  methods_of (m ∷ ms) = m.route.method ∷ methods_of ms

  pub find_method : Text → List (MatchedRoute Entry) → Option (MatchedRoute Entry)
  find_method method [] = none
  find_method method (m ∷ ms) =
      let rest = find_method method ms in if m.route.method == method then some m else rest

module _ {Value : Type 0} where
  -- 405, with the methods in the header `Allow`.
  pub method_not_allowed : List Text → Response Value
  unfolding join sort
  method_not_allowed methods = record (json_error 405 (codes "Method not allowed") none) {
    headers = (codes "Content-Type", codes "application/json") ∷ allow_headers (sort methods);
  }

  pub options_answer : List Text → Response Value
  unfolding join
  options_answer methods = record { status = 204; headers = allow_headers methods; body = no_body }

module _ {Entry Value : Type 0} where
  or_not_allowed : List Text → Option (MatchedRoute Entry) → RouteResult Entry Value
  unfolding method_not_allowed
  or_not_allowed methods none = answer (method_not_allowed methods)
  or_not_allowed methods (some m) = found m

  -- The choice among the routes that the path matches.
  pub choose : Text → List (MatchedRoute Entry) → RouteResult Entry Value
  unfolding or_not_allowed options_answer find_method methods_of to_upper sort
  choose method [] = answer not_found
  choose method (m ∷ ms) =
      let allowed = sort (add_all (methods_of (m ∷ ms)) []) in
      if method == codes "OPTIONS"
      then answer (options_answer allowed)
      else or_not_allowed allowed (find_method (to_upper method) (m ∷ ms))

  choose_from : Text → Attempt (List (MatchedRoute Entry)) → Attempt (RouteResult Entry Value)
  unfolding choose
  choose_from method (thrown message) = thrown message
  choose_from method (done ms) = done (choose method ms)

  unfoldable pub find_route :
      (Text → Option Text) → ServeConfig Entry → Request Value → Attempt (RouteResult Entry Value)
  unfolding choose_from path_matches
  find_route decode config req =
      let path =
        relative_path_from_parts (split_path req.pathname) config.name config.path_prefix in
      choose_from req.method (path_matches decode path config.routes)
