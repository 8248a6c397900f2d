-- ===== src/Gateway/Logging.antt =====
-- internal/gateway/middleware.go: `RequestLogging` with its `responseWriter`, and the calls of the
-- response writer that `ServeHTTP` of internal/gateway/proxy.go makes for each of its replies. The
-- writer below is that of net/http: the first status from 200 on is the one that is sent, a body sends
-- 200 if no status was sent, and so does the end of the handler. The text of an error is an argument's
-- bytes, and the time that a request takes is given in milliseconds.
mod Tests
use toska_mesh.Prelude.{
  ℕ, String, ◌≡◌, refl, ap, Bool, false, ◌||◌, Option, none, some, List, [], ◌∷◌, ◌++◌, arith,
  str_eq, ◌==◌, if◌then◌else◌,
}
use toska_mesh.Prelude.Int.{ℤ, pos, negsuc, ◌≤ℤ◌, leb_ℤ}
use toska_mesh.Prelude.Net.{Net}
use toska_mesh.Prelude.Text.{◌+ₛ◌}
use toska_mesh.Gateway.Http.{header_get, Request}
use toska_mesh.Gateway.ClientIp.{client_ip_address}
use toska_mesh.Gateway.Proxy.{
  BufferedResponse, Reply, not_found, service_not_found, response, upstream_failed,
}

-- What a client has received: the status, once it is sent, and the body.
pub record Wire : Type 0 where
  pub sent_status : Option ℤ
  pub content : List ℕ

abbrev pub is_101 : ℤ → Bool
is_101 (pos n) = n == 101
is_101 (negsuc n) = false

-- `WriteHeader` of net/http's writer; a status from 100 to 199 announces another one, except 101
unfoldable pub send_header : ℤ → Wire → Wire
send_header code w = elim w.sent_status [
  | some c ↦ w
  | none ↦ if leb_ℤ (pos 200) code || is_101 code then record w { sent_status = some code } else w
]

-- `Write` of net/http's writer
unfoldable pub send_content : List ℕ → Wire → Wire
send_content bytes w = record {
  sent_status = elim w.sent_status [ some c ↦ some c | none ↦ some (pos 200) ];
  content = w.content ++ bytes;
}

-- the status that the client has when the handler has returned
unfoldable pub final_status : Wire → ℤ
final_status w = elim w.sent_status [ none ↦ pos 200 | some c ↦ c ]

-- `responseWriter`
pub record ResponseWriter : Type 0 where
  pub wire : Wire
  pub recorded_status : ℤ

-- A call that a handler makes on its writer. `Write` is that of the embedded writer.
pub data WriterCall : Type 0 where
  write_header : ℤ → WriterCall
  write : List ℕ → WriterCall

-- the methods of `responseWriter`
unfoldable pub called : ResponseWriter → WriterCall → ResponseWriter
called rw (write_header code) = record { wire = send_header code rw.wire; recorded_status = code }
called rw (write bytes) = record rw { wire = send_content bytes rw.wire }

-- a handler's calls, in order
unfoldable pub all_called : ResponseWriter → List WriterCall → ResponseWriter
all_called rw [] = rw
all_called rw (c ∷ cs) = all_called (called rw c) cs

-- `http.Error(w, message, code)`
abbrev pub http_error : List ℕ → ℤ → List WriterCall
http_error message code = write_header code ∷ write message ∷ []

-- the calls with which `ServeHTTP` of the proxy replies; `writeTo` is the case of a response
unfoldable pub calls_of : (String → List ℕ) → Reply → List WriterCall
calls_of bytes not_found = http_error (bytes "404 page not found\n") (pos 404)
calls_of bytes (service_not_found name) =
    http_error (bytes ("service not found: " +ₛ name +ₛ "\n")) (pos 502)
calls_of bytes (response br) = write_header br.status_code ∷ write br.body ∷ []
calls_of bytes (upstream_failed code) = http_error (bytes "upstream request failed\n") code

-- the lines of the log
pub data LogLine : Type 0 where
  incoming_request : (method path client_ip correlation_id : String) → LogLine
  outgoing_response :
      (method path : String) (status : ℤ) (duration_ms : ℕ) (correlation_id : String) → LogLine

-- the correlation ID of a request, which `Header.Get` looks up under the canonical names
unfoldable pub correlation_id_of : Request → String
correlation_id_of r =
    let id = header_get r.header "X-Correlation-Id" in
    if str_eq id "" then header_get r.header "X-Request-Id" else id

-- `RequestLogging`, with the calls of the handler behind it: the log, and what the client has received
unfoldable pub request_logging : Net → Request → ℕ → List WriterCall → List LogLine × Wire
unfolding correlation_id_of
request_logging net r duration calls =
    let id = correlation_id_of r in
    let rw =
      all_called
        (record { wire = record { sent_status = none; content = [] }; recorded_status = pos 200 })
        calls in
    (
      incoming_request r.method r.path (client_ip_address net r) id
          ∷ outgoing_response r.method r.path rw.recorded_status duration id
          ∷ [],
      rw.wire,
    )

-- The status of a reply.
abbrev pub status_of : Reply → ℤ
status_of not_found = pos 404
status_of (service_not_found name) = pos 502
status_of (response br) = br.status_code
status_of (upstream_failed code) = code

abbrev sent_content : Reply → List ℕ
sent_content (response br) = br.body
sent_content not_found = []
sent_content (service_not_found name) = []
sent_content (upstream_failed code) = []

send_header-first :
    (code : ℤ)
    → pos 200 ≤ℤ code
    → send_header code (record { sent_status = none; content = [] })
      ≡ record { sent_status = some code; content = [] }
unfolding send_header
send_header-first code h = ground arith

-- Whatever the proxy replies, the log tells what the client receives: the request is logged before and
-- after, under the same correlation ID, and the status that is logged at the end is the reply's, which
-- is also the one that is sent, with the reply's body and no other. (The status of the reply is from
-- 200 on, as that of a final response is.)
pub request_logging-calls_of :
    (net : Net) (r : Request) (duration : ℕ) (bytes : String → List ℕ) (reply : Reply)
    → pos 200 ≤ℤ status_of reply
    → let (log, w) = request_logging net r duration (calls_of bytes reply) in
      (log
        ≡ incoming_request r.method r.path (client_ip_address net r) (correlation_id_of r)
          ∷ outgoing_response r.method r.path (final_status w) duration (correlation_id_of r)
          ∷ [])
      × (final_status w ≡ status_of reply)
      × ((br : BufferedResponse) → reply ≡ response br → w.content ≡ br.body)
unfolding request_logging calls_of all_called called send_content final_status
request_logging-calls_of net r duration bytes not_found h =
    rw (send_header-first (pos 404) h) (refl, refl, λ br e. absurd (cc))
request_logging-calls_of net r duration bytes (service_not_found name) h =
    rw (send_header-first (pos 502) h) (refl, refl, λ br e. absurd (cc))
request_logging-calls_of net r duration bytes (upstream_failed code) h =
    rw (send_header-first code h) (refl, refl, λ br e. absurd (cc))
request_logging-calls_of net r duration bytes (response br) h =
    rw (send_header-first br.status_code h) (refl, refl, λ x e. ap sent_content e)
