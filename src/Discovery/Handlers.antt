-- ===== src/Discovery/Handlers.antt =====
-- What the handlers do to the tracked instances, and what they publish.
use toska_mesh.Discovery.Messages.{
  TrackingInfo, RegisterServiceRequest, ReportHealthRequest, from_proto_health,
}
use toska_mesh.Discovery.Tracking.{mark_deregistered, mark_health}
use toska_mesh.Discovery.{
  Clock, registration_of, new_tracking, registered_event, deregistered_event, health_event, Server,
  announce, register, deregister, report_health,
}
use toska_mesh.Prelude.{
  ℕ, String, ◌≡◌, inl, inr, ◌&&◌, Option, none, some, arith, str_eq, eq_iff, if◌then◌else◌,
  Option-cases,
}
use toska_mesh.Prelude.Dict.{Dict, lookup, lookup-insert}
use toska_mesh.Types.{HealthStatus, status_eq}
use toska_mesh.Messaging.{Event, Broker, publish}
use toska_mesh.Consul.{Agent}
use toska_mesh.Prelude.Net.{Net}

module _ (b : Broker) (a : Agent) where
  -- the broker after an event is published
  abbrev pub published : Server b a → Clock → Event → b.State
  published s t event = (publish b s.publisher event t.sent_time t.sent_nano s.broker).2

  -- A registration that Consul takes is tracked as healthy, in place of what was tracked for the ID,
  -- and announced by one event; one that it refuses changes neither the tracking nor the broker.
  -- The response names the ID in both cases, and says which it was.
  pub register-effects :
      (net : Net) (caller : Option String) (req : RegisterServiceRequest) (t : Clock)
      (s : Server b a) (id : String)
      → let reg = registration_of net caller req t in
        let (s', resp) = register b a net caller req t s in
        (lookup id s'.tracking ≡ (
          if resp.success && str_eq reg.service_id id
          then some (new_tracking reg t)
          else lookup id s.tracking))
        × (s'.broker ≡ (if resp.success then published s t (registered_event reg t) else s.broker))
        × (resp.service_id ≡ reg.service_id)
  unfolding register announce
  register-effects net caller req t s id =
      let reg = registration_of net caller req t in
      ground (arith, lookup-insert reg.service_id id (new_tracking reg t) s.tracking)

  -- the tracked information after a deregistration
  abbrev pub retired : ℕ → Option TrackingInfo → Option TrackingInfo
  retired now none = none
  retired now (some info) = some (record info { deregistered_at = some now; last_updated = now })

  lookup-mark_deregistered :
      (gone : String) (now : ℕ) (m : Dict TrackingInfo) (id : String)
      → lookup id (mark_deregistered gone now m)
        ≡ (if str_eq gone id then retired now (lookup id m) else lookup id m)
  unfolding mark_deregistered
  lookup-mark_deregistered gone now m id = elim (Option-cases (lookup gone m)) [
    | inl n ↦ rw (n, mark_deregistered) (ground (arith, eq_iff gone id))
    | inr (info, e) ↦
        let info' : TrackingInfo = record info { deregistered_at = some now; last_updated = now } in
        rw (e, mark_deregistered) (ground (arith, eq_iff gone id, lookup-insert gone id info' m))
  ]

  -- A deregistration that Consul takes marks what is tracked for the ID, which stays tracked, and is
  -- announced; one that it refuses changes neither the tracking nor the broker.
  pub deregister-effects :
      (gone : String) (t : Clock) (s : Server b a) (id : String)
      → let (s', removed) = deregister b a gone t s in
        (lookup id s'.tracking ≡ (
          if removed && str_eq gone id
          then retired t.now (lookup id s.tracking)
          else lookup id s.tracking))
        × (s'.broker ≡ (
            if removed
            then published s t (deregistered_event gone (lookup gone s.tracking) t)
            else s.broker))
  unfolding deregister announce
  deregister-effects gone t s id = ground (arith, lookup-mark_deregistered gone t.now s.tracking id)

  -- the tracked information after a report of health
  abbrev pub reported : HealthStatus → ℕ → Option TrackingInfo → Option TrackingInfo
  reported status now none = none
  reported status now (some info) =
      some (record info { status = status; last_health_check = some now; last_updated = now })

  lookup-mark_health :
      (key : String) (status : HealthStatus) (now : ℕ) (m : Dict TrackingInfo) (id : String)
      → lookup id (mark_health key status now m)
        ≡ (if str_eq key id then reported status now (lookup id m) else lookup id m)
  unfolding mark_health
  lookup-mark_health key status now m id = elim (Option-cases (lookup key m)) [
    | inl n ↦ rw (n, mark_health) (ground (arith, eq_iff key id))
    | inr (info, e) ↦
        let info' : TrackingInfo = record info {
          status = status;
          last_health_check = some now;
          last_updated = now;
        } in
        rw (e, mark_health) (ground (arith, eq_iff key id, lookup-insert key id info' m))
  ]

  -- the broker after a report of health that Consul has taken
  abbrev pub after_report :
      ReportHealthRequest → Option TrackingInfo → HealthStatus → Clock → Server b a → b.State
  after_report req none status t s = s.broker
  after_report req (some info) status t s =
      if status_eq info.status status
      then s.broker
      else published s t (health_event req info status t)

  -- A report of health that Consul takes sets the status of what is tracked for the ID, and is
  -- announced just when the ID is tracked with another status; it tracks no new ID. One that Consul
  -- refuses changes neither the tracking nor the broker.
  pub report_health-effects :
      (req : ReportHealthRequest) (t : Clock) (s : Server b a) (id : String)
      → let status = from_proto_health req.status in
        let (s', success) = report_health b a req t s in
        (lookup id s'.tracking ≡ (
          if success && str_eq req.service_id id
          then reported status t.now (lookup id s.tracking)
          else lookup id s.tracking))
        × (s'.broker ≡ (
            if success
            then after_report req (lookup req.service_id s.tracking) status t s
            else s.broker))
  unfolding report_health announce
  report_health-effects req t s id =
      ground (
        arith,
        lookup-mark_health req.service_id (from_proto_health req.status) t.now s.tracking id,
      )
