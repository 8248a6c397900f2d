-- ===== src/Gateway/Logging/Tests.antt =====
-- The log at concrete inputs.
use toska_mesh.Prelude.{ℕ, String, ◌≡◌, refl, none, some, List, [], ◌∷◌, arith}
use toska_mesh.Prelude.Int.{pos}
use toska_mesh.Prelude.Net.{Net}
use toska_mesh.Gateway.Http.{empty_body, Request}
use toska_mesh.Gateway.ClientIp.{client_ip_address}
use toska_mesh.Gateway.Proxy.{BufferedResponse, Reply, response}
use toska_mesh.Gateway.Logging.{
  send_header, send_content, final_status, write_header, write, called, all_called, calls_of,
  incoming_request, outgoing_response, correlation_id_of, request_logging, request_logging-calls_of,
}

abbrev net : Net
net = record { parse_ip = λ s. none; split_host = λ s. some "10.0.0.5" }

abbrev request : Request
request = record {
  method = "GET";
  path = "/api/orders/7";
  raw_query = "";
  header = ("X-Request-Id", "r-1" ∷ []) ∷ [];
  remote_addr = "10.0.0.5:4000";
  body = empty_body;
}

abbrev no_bytes : String → List ℕ
no_bytes text = []

abbrev reply : Reply
reply = response (record { status_code = pos 201; header = []; body = 1 ∷ [] })

request_logging-calls_of_example :
    let (log, w) = request_logging net request 12 (calls_of no_bytes reply) in
    (log
      ≡ incoming_request "GET" "/api/orders/7"
          (client_ip_address net request)
          (correlation_id_of request)
        ∷ outgoing_response "GET" "/api/orders/7" (final_status w) 12 (correlation_id_of request)
        ∷ [])
    × (final_status w ≡ pos 201)
    × ((br : BufferedResponse) → reply ≡ response br → w.content ≡ br.body)
request_logging-calls_of_example =
    request_logging-calls_of net request 12 no_bytes reply (omega arith)

-- A handler that writes first sends 200, whatever it logs.
late_status :
    (request_logging net request 12 (write (1 ∷ []) ∷ write_header (pos 500) ∷ [])).1.sent_status
    ≡ some (pos 200)
unfolding request_logging all_called called send_content send_header
late_status = refl
