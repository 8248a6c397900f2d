-- ===== src/Gateway/Command.antt =====
-- `run` of cmd/gateway/main.go: the gateway from its settings to its end. The Consul client's constructor
-- and the HTTP server are arguments; the requests come one after another, each with what it meets (the
-- route table, which is refreshed in the background, too).
mod Tests
use toska_mesh.Prelude.{String, ◌≡◌, ◌≢◌, Option, none, some, List, [], ◌∷◌}
use toska_mesh.Prelude.Result.{ok, err}
use toska_mesh.Prelude.Text.{◌+ₛ◌}
use toska_mesh.Prelude.Dict.{Dict}
use toska_mesh.Consul.{new_registry}
use toska_mesh.Gateway.Http.{Request}
use toska_mesh.Gateway.Config.{GatewayConfig, load_config}
use toska_mesh.Gateway.Proxy.{Reply}
use toska_mesh.Gateway.Chain
use toska_mesh.Gateway.Chain.{Library, Gateway, Arrival, Body, proxied, new_gateway, handle}
use toska_mesh.Gateway.Chain.Guard.{IsAdmitted}

-- What `run` meets: the environment, `api.NewClient`, Go's library, the requests until the end, and the
-- error of `ListenAndServe`, unless it is `ErrServerClosed`.
pub record GatewayMachine : Type 0 where
  pub getenv : String → String
  pub new_client : Option String → Option String
  pub library : Library
  pub requests : List (Arrival × Request)
  pub serve_failure : Option String

-- A request with its answer.
pub record Answered : Type 0 where
  pub arrival : Arrival
  pub request : Request
  pub headers : Dict String
  pub body : Body

-- the requests that the server hands to the chain
unfoldable pub handle_all :
    Library → GatewayConfig → List (Arrival × Request) → Gateway → List Answered
handle_all lib cfg [] g = []
handle_all lib cfg ((env, r) ∷ rest) g =
    let (h, body, g') = handle lib cfg env r g in
    record { arrival = env; request = r; headers = h; body = body } ∷ handle_all lib cfg rest g'

-- `run`: its error, and the requests with their answers
unfoldable pub run_gateway : GatewayMachine → Option String × List Answered
run_gateway m =
    let cfg = load_config m.getenv in
    elim (new_registry m.new_client cfg.consul_addr) [
      | err e ↦ (some ("consul registry: " +ₛ e), [])
      | ok registry ↦ (
        elim m.serve_failure [ none ↦ none | some e ↦ some ("http server: " +ₛ e) ],
        handle_all m.library cfg m.requests (new_gateway cfg),
      )
    ]

-- If the proxy has answered a request, then it is no preflight, and the middleware for tokens lets it
-- pass.
abbrev pub IsGuarded : Library → GatewayConfig → Answered → Type 0
IsGuarded lib cfg x =
    (reply : Reply)
    → x.body ≡ proxied reply
    → (x.request.method ≢ "OPTIONS") × IsAdmitted lib cfg x.arrival x.request
