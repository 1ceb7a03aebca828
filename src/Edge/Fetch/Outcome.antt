-- ===== src/Edge/Fetch/Outcome.antt =====
-- What a caller of the handler gets, whatever throws in it.
use tube.Common.{
  ◌≡◌, refl, ap, ◌∙◌, Bool, true, false, Bool-cases, inl, inr, leb, ◌&&◌, Option, none, some,
  if◌then◌else◌, ◌==◌, text_eq, arith,
}
use tube.Common.JsMap
use tube.Common.JsMap.{JsMap}
use tube.Common.Text.{Text}
use tube.Edge.{
  Attempt, done, thrown, Platform, Response, Request, bad_request, internal_server_error,
}
use tube.Edge.Router.{MatchedRoute, RouteResult, found, answer, ServeConfig, find_route}
use tube.Edge.Fetch.{
  OrResponse, value_of, response_of, invalid_json, internal, Endpoint, FetchHandlerOptions,
  with_cors, with_headers, bad_status, default_on_error, with_cors_done, run_handler, dispatch_body,
  dispatch_query, dispatch_params, dispatch_route, after, after_done, with_context, try_routes,
  handled_error, recover, create_fetch_handler,
}

module _ {Value : Type 0} where
  -- A response has all the headers of a list.
  abbrev pub Carries : JsMap Text Text → Response Value → Type 0
  Carries cors r = JsMap.Every (λ k v. JsMap.get k r.headers ≡ some v) cors

  -- An attempt that throws, or that returns a response with all the headers of a list.
  data Safe (cors : JsMap Text Text) : Attempt (Response Value) → Type 0 where
    threw : {message : Text} → Safe cors (thrown message)
    returned : {r : Response Value} → Carries cors r → Safe cors (done r)

  headers_if-Safe :
      (b : Bool) (r : Response Value) (headers : JsMap Text Text)
      → JsMap.IsDistinct headers
      → Safe headers (
          if b
          then done (record r { headers = JsMap.set_all headers r.headers })
          else thrown bad_status)
  unfolding JsMap.has
  headers_if-Safe false r headers d = threw
  headers_if-Safe true r headers d =
      returned (λ k v h. JsMap.get-set_all k headers r.headers d ∙ (ground (arith, h)))

  with_headers-Safe :
      (r : Response Value) (headers : JsMap Text Text)
      → JsMap.IsDistinct headers
      → Safe headers (with_headers r (done headers))
  unfolding with_headers
  with_headers-Safe r headers d = headers_if-Safe (leb 200 r.status && leb r.status 599) r headers d

  -- The answers of the default handler for errors have a status that `new Response` takes.
  with_cors-default :
      (req : Request Value) (message : Text)
      (given : Option (Request Value → Attempt (JsMap Text Text)))
      (cors : Request Value → Attempt (JsMap Text Text)) (headers : JsMap Text Text)
      → given ≡ some cors
      → cors req ≡ done headers
      → with_cors req (default_on_error message) given
        ≡ done (record (default_on_error message) {
          headers = JsMap.set_all headers (default_on_error {Value = Value} message).headers;
        })
  unfolding with_cors with_headers default_on_error
  with_cors-default req message none cors headers e f = cc
  with_cors-default req message (some own) cors headers e f =
      let same : own ≡ cors = cc in
      rw (same, f)
        (elim (Bool-cases (message == invalid_json)) [ inl t ↦ rw t refl | inr t ↦ rw t refl ])

  with_cors-Safe :
      (req : Request Value) (r : Response Value)
      (given : Option (Request Value → Attempt (JsMap Text Text)))
      (cors : Request Value → Attempt (JsMap Text Text)) (headers : JsMap Text Text)
      → given ≡ some cors
      → cors req ≡ done headers
      → JsMap.IsDistinct headers
      → Safe headers (with_cors req r given)
  unfolding with_cors
  with_cors-Safe req r none cors headers e f d = cc
  with_cors-Safe req r (some own) cors headers e f d =
      let same : own ≡ cors = cc in rw (same, f) (with_headers-Safe r headers d)

module _ (platform : Platform) {Ctx : Type 0} (opts : FetchHandlerOptions platform.Value Ctx)
    (req : Request platform.Value) (cors : Request platform.Value → Attempt (JsMap Text Text))
    (headers : JsMap Text Text) (cors_given : opts.get_cors_headers ≡ some cors)
    (cors_done : cors req ≡ done headers) (distinct : JsMap.IsDistinct headers)
    (no_on_error : opts.on_error ≡ none) (no_after : opts.after_response ≡ none) where
  open platform use {Value}

  carried : (r : Response Value) → Safe headers (with_cors req r opts.get_cors_headers)
  carried r = with_cors-Safe req r opts.get_cors_headers cors headers cors_given cors_done distinct

  with_cors_done-Safe : (a : Attempt (Response Value)) → Safe headers (with_cors_done req opts a)
  unfolding with_cors_done
  with_cors_done-Safe (thrown message) = threw
  with_cors_done-Safe (done r) = carried r

  run_handler-Safe :
      (ctx : Ctx) (e : Endpoint Value Ctx) (params query : Value) (body : OrResponse Value Value)
      → Safe headers (run_handler opts req ctx e params query body)
  unfolding run_handler
  run_handler-Safe ctx e params query (response_of r) = carried r
  run_handler-Safe ctx e params query (value_of body) = with_cors_done-Safe _

  dispatch_body-Safe :
      (ctx : Ctx) (e : Endpoint Value Ctx) (params query : Value) (raw : Attempt Value)
      → Safe headers (dispatch_body opts req ctx e params query raw)
  unfolding dispatch_body
  dispatch_body-Safe ctx e params query (thrown message) = threw
  dispatch_body-Safe ctx e params query (done raw) = run_handler-Safe ctx e params query _

  dispatch_query-Safe :
      (ctx : Ctx) (e : Endpoint Value Ctx) (params : Value) (query : OrResponse Value Value)
      → Safe headers (dispatch_query platform opts req ctx e params query)
  unfolding dispatch_query
  dispatch_query-Safe ctx e params (response_of r) = carried r
  dispatch_query-Safe ctx e params (value_of query) = dispatch_body-Safe ctx e params query _

  dispatch_params-Safe :
      (ctx : Ctx) (e : Endpoint Value Ctx) (params : OrResponse Value Value)
      → Safe headers (dispatch_params platform opts req ctx e params)
  unfolding dispatch_params
  dispatch_params-Safe ctx e (response_of r) = carried r
  dispatch_params-Safe ctx e (value_of params) = dispatch_query-Safe ctx e params _

  after-Safe : (r : Response Value) → Carries headers r → Safe headers (after platform opts req r)
  unfolding after
  after-Safe r h = rw (no_after, after) (returned h)

  after_done-Safe :
      (a : Attempt (Response Value))
      → Safe headers a
      → Safe headers (after_done platform opts req a)
  unfolding after_done
  after_done-Safe (thrown message) s = threw
  after_done-Safe (done r) (returned h) = after-Safe r h

  with_context-Safe :
      (m : MatchedRoute (Endpoint Value Ctx)) (c : Attempt (OrResponse Value Ctx))
      → Safe headers (with_context platform opts req m c)
  unfolding with_context dispatch_route
  with_context-Safe m (thrown message) = threw
  with_context-Safe m (done (response_of r)) = after_done-Safe _ (carried r)
  with_context-Safe m (done (value_of ctx)) =
      after_done-Safe _ (dispatch_params-Safe ctx m.route.entry _)

  try_routes-Safe :
      (result : Attempt (RouteResult (Endpoint Value Ctx) Value))
      → Safe headers (try_routes platform opts req result)
  unfolding try_routes
  try_routes-Safe (thrown message) = threw
  try_routes-Safe (done (answer r)) = after_done-Safe _ (carried r)
  try_routes-Safe (done (found m)) = with_context-Safe m (opts.get_context req)

  recover-thrown :
      (message : Text)
      → recover platform opts req (thrown message)
        ≡ after_done platform opts req
            (with_cors req (default_on_error message) opts.get_cors_headers)
  unfolding recover handled_error with_cors_done
  recover-thrown message = rw (no_on_error, handled_error) refl

  returned_default : Text → Response Value
  unfolding default_on_error
  returned_default message = record (default_on_error message) {
    headers = JsMap.set_all headers (default_on_error {Value = Value} message).headers;
  }

  recover_default :
      (message : Text)
      → recover platform opts req (thrown message) ≡ done (returned_default message)
  unfolding after_done after returned_default
  recover_default message =
      recover-thrown message
      ∙ rw
          (
            with_cors-default req message opts.get_cors_headers cors headers cors_given cors_done,
            no_after,
            after,
          )
          refl

  default-Carries : (message : Text) → Carries headers (returned_default message)
  unfolding returned_default JsMap.has
  default-Carries message k v h =
      JsMap.get-set_all k headers (default_on_error {Value = Value} message).headers distinct
      ∙ (ground (arith, h))

  recover-done :
      (a : Attempt (Response Value))
      → Safe headers a
      → (r : Response Value) × (recover platform opts req a ≡ done r) × Carries headers r
  unfolding recover
  recover-done (thrown message) s =
      (returned_default message, recover_default message, default-Carries message)
  recover-done (done r) (returned h) = (r, refl, h)

  -- Without hooks for errors and responses, and where `getCorsHeaders` gives headers for the request and
  -- does not throw, the handler never throws: whatever the routes, the decoding of the path, the
  -- context, the schemas and the handlers do, it returns a response, and the response has every header
  -- that `getCorsHeaders` gives.
  pub create_fetch_handler-Carries :
      (config : ServeConfig (Endpoint Value Ctx))
      → (r : Response Value) × (create_fetch_handler platform config opts req ≡ done r)
        × Carries headers r
  unfolding create_fetch_handler
  create_fetch_handler-Carries config = recover-done _ (try_routes-Safe _)

  -- An error that a route's body or handler throws is not shown: the response is the 400 for a body
  -- that is no JSON and else a 500 with a fixed message.
  pub create_fetch_handler-thrown :
      (config : ServeConfig (Endpoint Value Ctx)) (m : MatchedRoute (Endpoint Value Ctx))
      (ctx : Ctx) (message : Text)
      → find_route platform.decode_uri_component config req ≡ done (found m)
      → opts.get_context req ≡ done (value_of ctx)
      → dispatch_route platform opts req ctx m ≡ thrown message
      → create_fetch_handler platform config opts req
        ≡ done
            (record (if message == invalid_json
              then bad_request invalid_json
              else internal_server_error {Value = Value} internal) {
                headers =
                    JsMap.set_all headers
                      (if message == invalid_json
                        then bad_request invalid_json
                        else internal_server_error {Value = Value} internal).headers;
              })
  unfolding create_fetch_handler try_routes with_context after_done default_on_error
      returned_default
  create_fetch_handler-thrown config m ctx message route context throws =
      ap (λ f. recover platform opts req (try_routes platform opts req f)) route
      ∙ ap (λ c. recover platform opts req (with_context platform opts req m c)) context
      ∙ ap (λ d. recover platform opts req (after_done platform opts req d)) throws
      ∙ recover_default message
