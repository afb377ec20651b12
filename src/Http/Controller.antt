-- ===== src/Http/Controller.antt =====
-- server/internal/transport/http/controller/controller.go: all routes, behind the line of the log
-- for each request. The middleware of the chi package is left out, so a handler does not panic
-- and is not cut off.
use agent_events.Prelude.{String, [], ◌∷◌}
use agent_events.Prelude.Int.{pos}
use agent_events.Time.{sub}
use agent_events.Port.{Logger, Runtime, info_level, str, int, duration_field}
use agent_events.Http.Response.{Response}
use agent_events.Http.Api.{Api, Request, Payload, health_payload}
use agent_events.Http.Router.{Route, serve}

-- What the line of the log takes of a request, and the id that the chi package gives it.
pub record RequestInfo : Type 0 where
  pub method : String
  pub path : String
  pub request_id : String

-- The routes of the server: `/healthz`, and those under `/api/v1`.
pub data Endpoint : Type 0 where
  healthz : Endpoint
  api_v1 : Route → Endpoint

module _ {W : Type 0} where
  -- `RequestLogger`: the time is read before the handler and behind it
  unfoldable pub request_logger :
      Logger W → Runtime W → RequestInfo → (W → Response Payload × W) → W → Response Payload × W
  unfolding sub
  request_logger log runtime req next w =
      let (start, w₁) = runtime.now w in
      let (response, w₂) = next w₁ in
      let (ended, w₃) = runtime.now w₂ in
      (
        response,
        log.log info_level "http request"
            (str "method" req.method
              ∷ str "path" req.path
              ∷ int "status" (pos response.status)
              ∷ duration_field "duration" (sub ended start)
              ∷ str "request_id" req.request_id
              ∷ [])
            w₃,
      )

  -- the handler of `/healthz`
  abbrev pub show_health : W → Response Payload × W
  show_health w = (record { status = 200; body = health_payload "ok" }, w)

  -- the handler of an endpoint in `NewRouter`
  unfoldable pub endpoint : Api W → Endpoint → Request → W → Response Payload × W
  unfolding serve
  endpoint api healthz r = show_health
  endpoint api (api_v1 rt) r = serve api rt r

  -- `NewRouter`: an endpoint behind the line of the log
  unfoldable pub handle :
      Api W → Runtime W → Endpoint → RequestInfo → Request → W → Response Payload × W
  unfolding request_logger endpoint
  handle api runtime e req r = request_logger api.log runtime req (endpoint api e r)
