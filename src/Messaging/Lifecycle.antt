-- ===== src/Messaging/Lifecycle.antt =====
-- The connections of a publisher, from its making to its end.
use toska_mesh.Prelude.{
  ℕ, String, ◌≡◌, refl, sym, ap, ◌∙◌, ◌≢◌, ◌⊎◌, inl, inr, Option, none, some, arith, str_eq,
  Bool-cases, Option-cases,
}
use toska_mesh.Prelude.Result.{Result, ok, err}
use toska_mesh.Messaging.{
  Event, event_meta, MassTransitEnvelope, Broker, Publisher, channel_opened, dialed, new_publisher,
  close, generate_id, envelope_of, send, publish,
}

-- What the AMQP client documents of connections. Only `Dial` opens one, the one that it returns, and
-- a closed connection is not open, also when `Close` reports an error.
pub record Connections (b : Broker) : Type 1 where
  pub IsOpen : ℕ → b.State → Type 0
  pub dial_opens :
      (url : String) (w : b.State) (d : ℕ)
      → IsOpen d (b.dial url w).1
      → IsOpen d w ⊎ ((b.dial url w).0 ≡ ok d)
  pub open_channel_keeps :
      (c : ℕ) (w : b.State) (d : ℕ) → IsOpen d (b.open_channel c w).1 → IsOpen d w
  pub close_channel_keeps :
      (c : ℕ) (w : b.State) (d : ℕ) → IsOpen d (b.close_channel c w).1 → IsOpen d w
  pub close_connection_closes :
      (c : ℕ) (w : b.State) (d : ℕ) → IsOpen d (b.close_connection c w).1 → IsOpen d w × (d ≢ c)
  pub exchange_declare_keeps :
      (c : ℕ) (name : String) (w : b.State) (d : ℕ)
      → IsOpen d (b.exchange_declare c name w).1
      → IsOpen d w
  pub publish_message_keeps :
      (c : ℕ) (name type : String) (e : MassTransitEnvelope) (w : b.State) (d : ℕ)
      → IsOpen d (b.publish_message c name type e w).1
      → IsOpen d w

module _ (b : Broker) (k : Connections b) where
  -- Every connection that is open in the second state but not in the first is the publisher's.
  abbrev pub Owns : Publisher → b.State → b.State → Type 0
  Owns p w w' = (d : ℕ) → k.IsOpen d w' → k.IsOpen d w ⊎ (p.conn ≡ some d)

  -- Every connection that is open in the second state was open in the first.
  abbrev pub Releases : b.State → b.State → Type 0
  Releases w w' = (d : ℕ) → k.IsOpen d w' → k.IsOpen d w

  -- What `NewPublisher` leaves open: the publisher's connection, or nothing.
  abbrev pub Makes : b.State → Result Publisher × b.State → Type 0
  Makes w (err e, w') = Releases w w'
  Makes w (ok p, w') = Owns p w w'

  -- From the first publisher and state to the second ones, no connection is opened, and the publisher
  -- keeps its own.
  abbrev pub Keeps : Publisher × b.State → Publisher × b.State → Type 0
  Keeps (p, w) (p', w') = Releases w w' × (p'.conn ≡ p.conn)

  pub Keeps-refl : (p : Publisher) (w : b.State) → Keeps (p, w) (p, w)
  Keeps-refl p w = (λ d o. o, refl)

  pub Keeps-trans :
      (p q r : Publisher) (w v u : b.State)
      → Keeps (p, w) (q, v)
      → Keeps (q, v) (r, u)
      → Keeps (p, w) (r, u)
  Keeps-trans p q r w v u (h, e) (h', e') = (λ d o. h d (h' d o), e' ∙ e)

  pub Owns-Keeps :
      (p q : Publisher) (w v u : b.State) → Owns p w v → Keeps (p, v) (q, u) → Owns q w u
  Owns-Keeps p q w v u h (k', e) d o = rw e (h d (k' d o))

  channel_opened-Makes :
      (conn : ℕ) (w w' : b.State) (r : Result ℕ)
      → ((d : ℕ) → k.IsOpen d w' → k.IsOpen d w ⊎ (d ≡ conn))
      → Makes w (channel_opened b conn (r, w'))
  channel_opened-Makes conn w w' (err e) h = λ d o.
      let (still, other) = k.close_connection_closes conn w' d o in
      elim (h d still) [ inl before ↦ before | inr e ↦ absurd (other e) ]
  channel_opened-Makes conn w w' (ok ch) h =
      λ d o. elim (h d o) [ inl before ↦ inl before | inr e ↦ inr (ap some (sym e)) ]

  dialed-Makes :
      (w w' : b.State) (r : Result ℕ)
      → ((d : ℕ) → k.IsOpen d w' → k.IsOpen d w ⊎ (r ≡ ok d))
      → Makes w (dialed b (r, w'))
  dialed-Makes w w' (err e) h = λ d o. elim (h d o) [ inl before ↦ before | inr x ↦ absurd (cc) ]
  dialed-Makes w w' (ok conn) h =
      let (r, w'') = b.open_channel conn w' in
      channel_opened-Makes conn w w'' r λ d o. elim (h d (k.open_channel_keeps conn w' d o)) [
        | inl before ↦ inl before
        | inr e ↦ inr (cc)
      ]

  pub new_publisher-Makes : (url : String) (w : b.State) → Makes w (new_publisher b url w)
  unfolding new_publisher
  new_publisher-Makes url w = elim (Bool-cases (str_eq url "")) [
    | inl e ↦ rw (e, new_publisher) (λ d o. inl o)
    | inr e ↦
        rw (e, new_publisher)
          (dialed-Makes w (b.dial url w).1 (b.dial url w).0 (k.dial_opens url w))
  ]

  send-Releases :
      (ch : ℕ) (exchange : String) (e : MassTransitEnvelope) (w : b.State)
      → Releases w (send b ch exchange e w).1
  send-Releases ch exchange e w d o =
      k.exchange_declare_keeps ch exchange w d
        (elim (Option-cases (b.exchange_declare ch exchange w).0) [
          | inl n ↦
              k.publish_message_keeps ch exchange "application/vnd.masstransit+json" e _ d
                (rw (n, send) at o)
          | inr (m, n) ↦ rw (n, send) at o
        ])

  sent-Releases :
      (o : Option ℕ) (exchange : String) (e : MassTransitEnvelope) (w : b.State)
      → Releases w
          (elim o as (λ x. Option String × b.State) [
            | none ↦ (none, w)
            | some ch ↦ send b ch exchange e w
          ]).1
  sent-Releases none exchange e w = λ d o. o
  sent-Releases (some ch) exchange e w = send-Releases ch exchange e w

  -- A publication keeps the connections and the publisher's handles.
  pub publish-Keeps :
      (p : Publisher) (e : Event) (now nano : ℕ) (w : b.State)
      → Keeps (p, w) ((publish b p e now nano w).1, (publish b p e now nano w).2)
  unfolding publish generate_id
  publish-Keeps p e now nano w =
      (sent-Releases p.ch (event_meta e).1 (envelope_of e (generate_id p nano).0 now) w, refl)

  channel_closed-Releases :
      (o : Option ℕ) (w : b.State)
      → Releases w (elim o as (λ x. b.State) [ none ↦ w | some ch ↦ (b.close_channel ch w).1 ])
  channel_closed-Releases none w = λ d o. o
  channel_closed-Releases (some ch) w = k.close_channel_keeps ch w

  connection_closed-Releases :
      (o : Option ℕ) (w w' : b.State)
      → ((d : ℕ) → k.IsOpen d w' → k.IsOpen d w ⊎ (o ≡ some d))
      → Releases w
          (elim o as (λ x. Option String × b.State) [
            | none ↦ (none, w')
            | some conn ↦ b.close_connection conn w'
          ]).1
  connection_closed-Releases none w w' h =
      λ d o. elim (h d o) [ inl before ↦ before | inr e ↦ absurd (cc) ]
  connection_closed-Releases (some conn) w w' h = λ d o.
      let (still, other) = k.close_connection_closes conn w' d o in
      elim (h d still) [ inl before ↦ before | inr e ↦ absurd (other (ground arith)) ]

  -- `Close` releases what the publisher owns.
  pub close-Releases : (p : Publisher) (w w' : b.State) → Owns p w w' → Releases w (close b p w').1
  unfolding close
  close-Releases p w w' h =
      connection_closed-Releases p.conn w _ λ d o. h d (channel_closed-Releases p.ch w' d o)
