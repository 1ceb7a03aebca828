-- ===== src/Edge/Fetch.antt =====
-- `createFetchHandler`: a request from the route to the response, and what becomes of errors. The
-- hooks are those of `FetchHandlerOptions`; the names of headers are in one spelling.
pub mod Outcome
use tube.Common.{
  ℕ, Bool, true, false, ◌&&◌, leb, Option, none, some, List, [], ◌∷◌, ◌++◌, if◌then◌else◌, ◌==◌,
  text_eq,
}
use tube.Common.JsMap
use tube.Common.JsMap.{JsMap}
use tube.Common.Text.{Text, codes}
use tube.Edge.{
  Attempt, done, thrown, Platform, Response, Request, bad_request, internal_server_error,
  json_error,
}
use tube.Edge.Router.{MatchedRoute, RouteResult, found, answer, ServeConfig, find_route}

-- What `safeParse` gives: the data, or the error as `flatten` shows it.
pub data Parsed (Value : Type 0) : Type 0 where
  data_of : Value → Parsed Value
  error_of : Value → Parsed Value

-- A value, or the response to send in its place.
pub data OrResponse (Value A : Type 0) : Type 0 where
  value_of : A → OrResponse Value A
  response_of : Response Value → OrResponse Value A

abbrev pub invalid_json : Text
invalid_json = codes "Invalid JSON body"

abbrev pub internal : Text
internal = codes "Internal server error"

abbrev Schema : Type 0 → Type 0
Schema Value = Value → Parsed Value

pub record Input (Value Ctx : Type 0) : Type 0 where
  pub req : Request Value
  pub ctx : Ctx
  pub params : Value
  pub query : Value
  pub body : Value

-- The schemas and the handler of a route.
pub record Endpoint (Value Ctx : Type 0) : Type 0 where
  pub params : Option (Value → Parsed Value)
  pub query : Option (Value → Parsed Value)
  pub body : Option (Value → Parsed Value)
  pub handler : Input Value Ctx → Attempt (Response Value)

pub record FetchHandlerOptions (Value Ctx : Type 0) : Type 0 where
  pub get_context : Request Value → Attempt (OrResponse Value Ctx)
  pub get_cors_headers : Option (Request Value → Attempt (JsMap Text Text))
  pub on_error : Option (Text → Request Value → Attempt (Response Value))
  pub after_response : Option (Response Value → Request Value → Attempt (Response Value))

-- `new Response` takes only statuses in this range.
abbrev bad_status : Text
bad_status = codes "status must be in the range of 200 to 599"

module _ {Value : Type 0} where
  checked : Text → Parsed Value → OrResponse Value Value
  checked label (data_of v) = value_of v
  checked label (error_of e) = response_of (json_error 400 (codes "Invalid " ++ label) (some e))

  pub validate_schema : Option (Value → Parsed Value) → Value → Text → OrResponse Value Value
  unfolding checked
  validate_schema none v label = value_of v
  validate_schema (some safe_parse) v label = checked label (safe_parse v)

  with_headers : Response Value → Attempt (JsMap Text Text) → Attempt (Response Value)
  unfolding JsMap.set_all
  with_headers r (thrown message) = thrown message
  with_headers r (done headers) =
      if leb 200 r.status && leb r.status 599
      then done (record r { headers = JsMap.set_all headers r.headers })
      else thrown bad_status

  -- The hook throws, or the headers that it gives are none; or the response cannot be built anew.
  pub with_cors :
      Request Value
      → Response Value
      → Option (Request Value → Attempt (JsMap Text Text))
      → Attempt (Response Value)
  unfolding with_headers
  with_cors req r none = done r
  with_cors req r (some cors) = with_headers r (cors req)

  pub parse_json_body : Request Value → Attempt Value
  parse_json_body req = elim req.body [ none ↦ thrown invalid_json | some v ↦ done v ]

  -- The body is read only where the route has a schema for it.
  raw_body : Value → Option (Value → Parsed Value) → Request Value → Attempt Value
  unfolding parse_json_body
  raw_body undefined none req = done undefined
  raw_body undefined (some schema) req = parse_json_body req

  pub default_on_error : Text → Response Value
  default_on_error message =
      if message == invalid_json then bad_request invalid_json else internal_server_error internal

module _ {Value Ctx : Type 0} where
  with_cors_done :
      Request Value
      → FetchHandlerOptions Value Ctx
      → Attempt (Response Value)
      → Attempt (Response Value)
  unfolding with_cors
  with_cors_done req opts (thrown message) = thrown message
  with_cors_done req opts (done r) = with_cors req r opts.get_cors_headers

  run_handler :
      FetchHandlerOptions Value Ctx
      → Request Value
      → Ctx
      → Endpoint Value Ctx
      → Value
      → Value
      → OrResponse Value Value
      → Attempt (Response Value)
  unfolding with_cors with_cors_done
  run_handler opts req ctx e params query (response_of r) = with_cors req r opts.get_cors_headers
  run_handler opts req ctx e params query (value_of body) =
      with_cors_done req opts
        (e.handler (record { req = req; ctx = ctx; params = params; query = query; body = body }))

  dispatch_body :
      FetchHandlerOptions Value Ctx
      → Request Value
      → Ctx
      → Endpoint Value Ctx
      → Value
      → Value
      → Attempt Value
      → Attempt (Response Value)
  unfolding run_handler validate_schema
  dispatch_body opts req ctx e params query (thrown message) = thrown message
  dispatch_body opts req ctx e params query (done raw) =
      run_handler opts req ctx e params query (validate_schema e.body raw (codes "body"))

module _ (platform : Platform) {Ctx : Type 0} where
  open platform use {Value}

  dispatch_query :
      FetchHandlerOptions Value Ctx
      → Request Value
      → Ctx
      → Endpoint Value Ctx
      → Value
      → OrResponse Value Value
      → Attempt (Response Value)
  unfolding with_cors dispatch_body raw_body
  dispatch_query opts req ctx e params (response_of r) = with_cors req r opts.get_cors_headers
  dispatch_query opts req ctx e params (value_of query) =
      dispatch_body opts req ctx e params query (raw_body platform.undefined e.body req)

  dispatch_params :
      FetchHandlerOptions Value Ctx
      → Request Value
      → Ctx
      → Endpoint Value Ctx
      → OrResponse Value Value
      → Attempt (Response Value)
  unfolding with_cors dispatch_query validate_schema
  dispatch_params opts req ctx e (response_of r) = with_cors req r opts.get_cors_headers
  dispatch_params opts req ctx e (value_of params) =
      dispatch_query opts req ctx e params
        (validate_schema e.query (platform.of_strings req.query) (codes "query"))

  unfoldable pub dispatch_route :
      FetchHandlerOptions Value Ctx
      → Request Value
      → Ctx
      → MatchedRoute (Endpoint Value Ctx)
      → Attempt (Response Value)
  unfolding validate_schema dispatch_params
  dispatch_route opts req ctx m =
      dispatch_params opts req ctx m.route.entry
        (validate_schema m.route.entry.params (platform.of_strings m.params) (codes "params"))

  after : FetchHandlerOptions Value Ctx → Request Value → Response Value → Attempt (Response Value)
  after opts req r = elim opts.after_response [ none ↦ done r | some hook ↦ hook r req ]

  after_done :
      FetchHandlerOptions Value Ctx
      → Request Value
      → Attempt (Response Value)
      → Attempt (Response Value)
  unfolding after
  after_done opts req (thrown message) = thrown message
  after_done opts req (done r) = after opts req r

  with_context :
      FetchHandlerOptions Value Ctx
      → Request Value
      → MatchedRoute (Endpoint Value Ctx)
      → Attempt (OrResponse Value Ctx)
      → Attempt (Response Value)
  unfolding after_done with_cors dispatch_route
  with_context opts req m (thrown message) = thrown message
  with_context opts req m (done (response_of r)) =
      after_done opts req (with_cors req r opts.get_cors_headers)
  with_context opts req m (done (value_of ctx)) =
      after_done opts req (dispatch_route opts req ctx m)

  -- The body of the `try`.
  try_routes :
      FetchHandlerOptions Value Ctx
      → Request Value
      → Attempt (RouteResult (Endpoint Value Ctx) Value)
      → Attempt (Response Value)
  unfolding after_done with_cors with_context
  try_routes opts req (thrown message) = thrown message
  try_routes opts req (done (answer r)) =
      after_done opts req (with_cors req r opts.get_cors_headers)
  try_routes opts req (done (found m)) = with_context opts req m (opts.get_context req)

  handled_error : FetchHandlerOptions Value Ctx → Request Value → Text → Attempt (Response Value)
  unfolding default_on_error
  handled_error opts req message = elim opts.on_error [
    | none ↦ done (default_on_error message)
    | some hook ↦ hook message req
  ]

  -- The `catch`.
  recover :
      FetchHandlerOptions Value Ctx
      → Request Value
      → Attempt (Response Value)
      → Attempt (Response Value)
  unfolding after_done with_cors_done handled_error
  recover opts req (done r) = done r
  recover opts req (thrown message) =
      after_done opts req (with_cors_done req opts (handled_error opts req message))

  pub create_fetch_handler :
      ServeConfig (Endpoint Value Ctx)
      → FetchHandlerOptions Value Ctx
      → Request Value
      → Attempt (Response Value)
  unfolding recover try_routes
  create_fetch_handler config opts req =
      recover opts req (try_routes opts req (find_route platform.decode_uri_component config req))
