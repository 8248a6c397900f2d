-- ===== src/Gateway/ClientIp.antt =====
-- internal/gateway/middleware.go: the client's address, which is the key of the rate limiter.
use toska_mesh.Prelude.{
  String, ◌≡◌, Bool, false, not, ◌&&◌, none, some, arith, str_eq, if◌then◌else◌,
}
use toska_mesh.Prelude.Text.{cut_before}
use toska_mesh.Prelude.Trim.{trim_space}
use toska_mesh.Prelude.Net.{Net}
use toska_mesh.Gateway.Http.{header_get, Request}

-- `strings.SplitN(s, ",", 2)[0]`
abbrev pub first_part : String → String
first_part s = elim (cut_before b',' s) [ none ↦ s | some (part, rest) ↦ part ]

abbrev pub or_unknown : String → String
or_unknown host = if str_eq host "" then "unknown" else host

-- `remoteHost`, empty for an address without a port
unfoldable pub remote_host : Net → Request → String
remote_host net r = elim (net.split_host r.remote_addr) [ none ↦ "" | some host ↦ host ]

-- `remoteIP != nil && remoteIP.IsLoopback()`
unfoldable pub is_trusted : Net → Request → Bool
is_trusted net r = elim (net.parse_ip (remote_host net r)) [
  | none ↦ false
  | some ip ↦ ip.is_loopback
]

-- `clientIPAddress`
unfoldable pub client_ip_address : Net → Request → String
client_ip_address net r =
    let client_ip = trim_space (first_part (header_get r.header "X-Forwarded-For")) in
    if is_trusted net r
      && not (str_eq (header_get r.header "X-Forwarded-For") "")
      && not (str_eq client_ip "")
    then client_ip
    else or_unknown (remote_host net r)

-- The header "X-Forwarded-For" counts only for requests whose remote address is a loopback address:
-- any two requests from one remote address that is none have the same client address, which is its
-- host, or "unknown" where it has none.
pub client_ip_address-untrusted :
    (net : Net) (r r' : Request)
    → is_trusted net r ≡ false
    → r'.remote_addr ≡ r.remote_addr
    → (client_ip_address net r' ≡ client_ip_address net r)
      × (client_ip_address net r ≡ or_unknown (remote_host net r))
unfolding client_ip_address is_trusted remote_host
client_ip_address-untrusted net r r' u e = ground arith
