-- ===== src/HealthMonitor/Config.antt =====
-- internal/healthmonitor/config.go: the configuration of the probe worker.
use toska_mesh.Prelude.{◌*◌, ◌^◌, String, []}
use toska_mesh.Prelude.Int.{ℤ, pos}
use toska_mesh.Prelude.Dict.{Dict}

-- `Config`; durations are nanoseconds, and signed.
pub record Config : Type 0 where
  pub probe_interval : ℤ
  pub http_timeout : ℤ
  pub tcp_timeout : ℤ
  pub failure_threshold : ℤ
  pub recovery_threshold : ℤ
  pub http_headers : Dict String

-- `DefaultConfig`
unfoldable pub default_config : Config
default_config = record {
  probe_interval = pos (30 * 10 ^ 9);
  http_timeout = pos (5 * 10 ^ 9);
  tcp_timeout = pos (3 * 10 ^ 9);
  failure_threshold = pos 3;
  recovery_threshold = pos 2;
  http_headers = [];
}
