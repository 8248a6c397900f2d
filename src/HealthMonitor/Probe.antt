-- ===== src/HealthMonitor/Probe.antt =====
-- internal/healthmonitor/worker.go: the probe of one instance, by HTTP or TCP.
use toska_mesh.Prelude.{ℕ, String, ◌&&◌, Option, none, some, str_eq, ◌==◌, if◌then◌else◌, any}
use toska_mesh.Prelude.Int.{ℤ, pos, ltb_ℤ, leb_ℤ}
use toska_mesh.Prelude.Dict.{Dict, lookup}
use toska_mesh.Prelude.Text.{codes, ◌+ₛ◌, format_int}
use toska_mesh.Prelude.Result.{Result, ok, err}
use toska_mesh.Types.{HealthStatus, unknown, healthy, unhealthy}
use toska_mesh.Consul.{Instance}
use toska_mesh.HealthMonitor.Config.{Config}

-- What happens outside while one instance is probed: the answers of the network, and the clock at
-- each reading. `new_request` is the error of a URL that is refused, `http_do` the status code or
-- error of a GET within the configured timeout, `dial` the error of a TCP connection.
pub record Surroundings : Type 0 where
  pub new_request : String → Option String
  pub http_do : String → Dict String → Result ℤ
  pub dial : String → Option String
  pub allow_time : ℕ
  pub outcome_time : ℕ
  pub update_time : ℕ
  pub event_time : ℕ
  pub sent_time : ℕ
  pub event_nano : ℕ
  pub sent_nano : ℕ

-- `if s, ok := m[k]; ok && s != ""`
abbrev pub given : String → Dict String → Option String
given k m = elim (lookup k m) [ none ↦ none | some s ↦ if str_eq s "" then none else some s ]

abbrev pub scheme_of : Dict String → String
scheme_of metadata = elim (given "scheme" metadata) [ none ↦ "http" | some s ↦ s ]

-- `scheme://address:port`
unfoldable pub base_url : Dict String → String → ℤ → String
base_url metadata address port = scheme_of metadata +ₛ "://" +ₛ address +ₛ ":" +ₛ format_int port 10

-- `httpProbe`
unfoldable pub http_probe : Config → Surroundings → Instance → String → HealthStatus × String
http_probe config env inst endpoint =
    let url = base_url inst.metadata inst.address inst.port +ₛ endpoint in
    elim (env.new_request url) [
      | some e ↦ (unhealthy, "request error: " +ₛ e)
      | none ↦ elim (env.http_do url config.http_headers) [
        | err e ↦ (unhealthy, "probe failed: " +ₛ e)
        | ok code ↦
            let message = "HTTP " +ₛ format_int code 10 in
            if leb_ℤ (pos 200) code && ltb_ℤ code (pos 300)
            then (healthy, message)
            else (unhealthy, message)
      ]
    ]

-- `net.JoinHostPort`
abbrev pub join_host_port : String → String → String
join_host_port host port =
    if any (λ c. c == b':') (codes host) then "[" +ₛ host +ₛ "]:" +ₛ port else host +ₛ ":" +ₛ port

-- `tcpProbe`
unfoldable pub tcp_probe : Surroundings → Instance → String → HealthStatus × String
tcp_probe env inst port = elim (env.dial (join_host_port inst.address port)) [
  | some e ↦ (unhealthy, "TCP connection failed: " +ₛ e)
  | none ↦ (healthy, "TCP connection successful")
]

-- The result of a probe: the status, the probe's type and a message.
pub record Outcome : Type 0 where
  pub status : HealthStatus
  pub probe_type : String
  pub message : String

abbrev outcome_of : String → HealthStatus × String → Outcome
outcome_of probe_type (status, message) = record {
  status = status;
  probe_type = probe_type;
  message = message;
}

-- `runProbes`
unfoldable pub run_probes : Config → Surroundings → Instance → Outcome
run_probes config env inst = elim (given "health_check_endpoint" inst.metadata) [
  | some endpoint ↦ outcome_of "http" (http_probe config env inst endpoint)
  | none ↦ elim (given "tcp_port" inst.metadata) [
    | some port ↦ outcome_of "tcp" (tcp_probe env inst port)
    | none ↦ record {
      status = unknown;
      probe_type = "none";
      message = "No probe configuration available";
    }
  ]
]
