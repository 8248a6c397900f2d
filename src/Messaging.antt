-- ===== src/Messaging.antt =====
-- internal/messaging/events.go and publisher.go: the events, the connection and the publication.
-- The message body is the envelope itself, not its JSON text; logging is left out.
pub mod Identifiers
pub mod Lifecycle
pub mod Tests
use toska_mesh.Prelude.Result.{Result, ok, err}
use toska_mesh.Prelude.{
  ℕ, ◌+◌, ◌%◌, ◌^◌, String, Option, none, some, List, [], ◌∷◌, str_eq, if◌then◌else◌,
}
use toska_mesh.Prelude.Int.{ℤ, pos}
use toska_mesh.Prelude.Dict.{Dict}
use toska_mesh.Prelude.Text.{◌+ₛ◌, format_int}

pub record ServiceRegisteredEvent : Type 0 where
  pub event_id : String
  pub timestamp : ℕ
  pub correlation_id : String
  pub service_id : String
  pub service_name : String
  pub address : String
  pub port : ℤ
  pub metadata : Dict String

pub record ServiceDeregisteredEvent : Type 0 where
  pub event_id : String
  pub timestamp : ℕ
  pub correlation_id : String
  pub service_id : String
  pub service_name : String
  pub reason : String

pub record ServiceHealthChangedEvent : Type 0 where
  pub event_id : String
  pub timestamp : ℕ
  pub correlation_id : String
  pub service_id : String
  pub service_name : String
  pub previous_status : String
  pub current_status : String
  pub health_check_output : String

-- The `event any` that the program passes to `Publish`.
pub data Event : Type 0 where
  service_registered : ServiceRegisteredEvent → Event
  service_deregistered : ServiceDeregisteredEvent → Event
  service_health_changed : ServiceHealthChangedEvent → Event

-- `eventMeta`: the type name and the exchange. Its `default` is for values that no caller passes.
unfoldable pub event_meta : Event → String × String
event_meta (service_registered e) = (
  "urn:message:ToskaMesh.Common.Messaging:ServiceRegisteredEvent",
  "ToskaMesh.Common.Messaging:ServiceRegisteredEvent",
)
event_meta (service_deregistered e) = (
  "urn:message:ToskaMesh.Common.Messaging:ServiceDeregisteredEvent",
  "ToskaMesh.Common.Messaging:ServiceDeregisteredEvent",
)
event_meta (service_health_changed e) = (
  "urn:message:ToskaMesh.Common.Messaging:ServiceHealthChangedEvent",
  "ToskaMesh.Common.Messaging:ServiceHealthChangedEvent",
)

pub record MassTransitHost : Type 0 where
  pub machine_name : String
  pub process_name : String
  pub process_id : ℤ
  pub assembly : String
  pub assembly_version : String
  pub framework_version : String
  pub mass_transit_version : String
  pub operating_system_version : String

pub record MassTransitEnvelope : Type 0 where
  pub message_id : String
  pub message_type : List String
  pub headers : Dict String
  pub message : Event
  pub sent_time : ℕ
  pub host : MassTransitHost

abbrev pub this_host : MassTransitHost
this_host = record {
  machine_name = "toska-mesh";
  process_name = "discovery";
  process_id = pos 0;
  assembly = "toska-mesh";
  assembly_version = "1.0.0";
  framework_version = "";
  mass_transit_version = "";
  operating_system_version = "";
}

-- RabbitMQ, behind the AMQP client: each call may change its state, and returns an error or nil.
-- Connections and channels are numbers.
pub record Broker : Type 1 where
  pub State : Type 0
  pub dial : String → State → Result ℕ × State
  pub open_channel : ℕ → State → Result ℕ × State
  pub close_channel : ℕ → State → Option String × State
  pub close_connection : ℕ → State → Option String × State
  pub exchange_declare : ℕ → String → State → Option String × State
  pub publish_message : ℕ → String → String → MassTransitEnvelope → State → Option String × State

-- `id_counter` is the package's `idCounter`, a `uint64`.
pub record Publisher : Type 0 where
  pub conn : Option ℕ
  pub ch : Option ℕ
  pub id_counter : ℕ

abbrev pub no_op_publisher : Publisher
no_op_publisher = record { conn = none; ch = none; id_counter = 0 }

-- `NewPublisher` after `conn.Channel()`
abbrev pub channel_opened : (b : Broker) → ℕ → Result ℕ × b.State → Result Publisher × b.State
channel_opened b conn (err e, w) = (err ("amqp channel: " +ₛ e), (b.close_connection conn w).1)
channel_opened b conn (ok ch, w) =
    (ok (record { conn = some conn; ch = some ch; id_counter = 0 }), w)

-- `NewPublisher` after `amqp.Dial(url)`
abbrev pub dialed : (b : Broker) → Result ℕ × b.State → Result Publisher × b.State
dialed b (err e, w) = (err ("amqp dial: " +ₛ e), w)
dialed b (ok conn, w) = channel_opened b conn (b.open_channel conn w)

-- `NewPublisher`
unfoldable pub new_publisher : (b : Broker) → String → b.State → Result Publisher × b.State
new_publisher b url w = if str_eq url "" then (ok no_op_publisher, w) else dialed b (b.dial url w)

-- `Close`: the channel, whose error is dropped, and then the connection
unfoldable pub close : (b : Broker) → Publisher → b.State → Option String × b.State
close b p w =
    let w' : b.State = elim p.ch [ none ↦ w | some ch ↦ (b.close_channel ch w).1 ] in
    elim p.conn [ none ↦ (none, w') | some conn ↦ b.close_connection conn w' ]

-- `generateID` at an instant given in Unix nanoseconds
unfoldable pub generate_id : Publisher → ℕ → String × Publisher
generate_id p unix_nano =
    let seq = (p.id_counter + 1) % 2 ^ 64 in
    (format_int (pos unix_nano) 10 +ₛ "-" +ₛ format_int (pos seq) 10, record p { id_counter = seq })

-- the envelope that `Publish` builds
unfoldable pub envelope_of : Event → String → ℕ → MassTransitEnvelope
envelope_of event id sent_time = record {
  message_id = id;
  message_type = (event_meta event).0 ∷ [];
  headers = [];
  message = event;
  sent_time = sent_time;
  host = this_host;
}

-- the end of `Publish`, on a channel
abbrev pub send :
    (b : Broker) → ℕ → String → MassTransitEnvelope → b.State → Option String × b.State
send b ch exchange envelope w =
    let (failure, w') = b.exchange_declare ch exchange w in
    elim failure [
      | some e ↦ (some ("declare exchange " +ₛ exchange +ₛ ": " +ₛ e), w')
      | none ↦ b.publish_message ch exchange "application/vnd.masstransit+json" envelope w'
    ]

-- `Publish` at the instant `now`, which is `unix_nano` on the Unix clock. (Encoding the envelope as
-- JSON cannot fail.)
unfoldable pub publish :
    (b : Broker) → Publisher → Event → ℕ → ℕ → b.State → Option String × Publisher × b.State
publish b p event now unix_nano w =
    let (id, p') = generate_id p unix_nano in
    let envelope = envelope_of event id now in
    let (failure, w') : Option String × b.State = elim p.ch [
      | none ↦ (none, w)
      | some ch ↦ send b ch (event_meta event).1 envelope w
    ] in
    (failure, p', w')
