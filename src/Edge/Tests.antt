-- ===== src/Edge/Tests.antt =====
-- A config of two routes at `/items/:id`, and a platform whose values are texts.
use tube.Common.{ℕ, ◌≡◌, refl, none, some, [], ◌∷◌, text_eq}
use tube.Common.JsMap
use tube.Common.JsMap.{JsMap}
use tube.Common.Text.{Text, codes}
use tube.Edge.{Attempt, done, thrown, Platform, Response, Request}
use tube.Edge.Paths.{relative_path_from_parts, match_route_path}
use tube.Edge.Router.{MatchedRoute, found, ServeConfig, find_route}
use tube.Edge.Fetch.{value_of, invalid_json, Endpoint, FetchHandlerOptions, create_fetch_handler}
use tube.Edge.Fetch.Outcome.{Carries, create_fetch_handler-Carries}

abbrev platform : Platform
platform = record {
  Value = Text;
  undefined = [];
  of_strings = λ m. codes "{}";
  decode_uri_component = λ s. some s;
}

abbrev endpoint : Endpoint Text ℕ
endpoint = record {
  params = none;
  query = none;
  body = none;
  handler = λ input. thrown (codes "password=1");
}

abbrev reader : Endpoint Text ℕ
reader = record { params = none; query = none; body = none; handler = λ input. thrown invalid_json }

abbrev config : ServeConfig (Endpoint Text ℕ)
config = record {
  name = codes "shop";
  path_prefix = none;
  routes =
      record { method = codes "GET"; path = codes "/items/:id"; entry = endpoint }
      ∷ record { method = codes "POST"; path = codes "/items/:id"; entry = reader }
      ∷ [];
}

abbrev request : Request Text
request = record {
  method = codes "get";
  pathname = codes "/functions/v1/shop/items/7";
  query = [];
  body = none;
}

abbrev cors_headers : JsMap Text Text
cors_headers = (codes "Vary", codes "Origin") ∷ []

abbrev cors : Request Text → Attempt (JsMap Text Text)
cors req = done cors_headers

abbrev options : FetchHandlerOptions Text ℕ
options = record {
  get_context = λ req. done (value_of 1);
  get_cors_headers = some cors;
  on_error = none;
  after_response = none;
}

create_fetch_handler-Carries_example :
    (r : Response Text) × (create_fetch_handler platform config options request ≡ done r)
    × Carries cors_headers r
unfolding JsMap.get
create_fetch_handler-Carries_example =
    create_fetch_handler-Carries platform options request cors cors_headers refl refl (refl, tt)
      refl refl config

abbrev chosen : MatchedRoute (Endpoint Text ℕ)
chosen = record {
  route = record { method = codes "GET"; path = codes "/items/:id"; entry = endpoint };
  params = (codes "id", codes "7") ∷ [];
}

chosen_found : find_route platform.decode_uri_component config request ≡ done (found chosen)
unfolding find_route match_route_path relative_path_from_parts JsMap.set
chosen_found = refl
