-- ===== src/Messaging/Tests.antt =====
-- Identifiers at concrete inputs, and a broker with at most one connection.
use toska_mesh.Messaging.{Broker, Publisher, generate_id}
use toska_mesh.Messaging.Lifecycle.{Connections}
use toska_mesh.Prelude.Result.{ok}
use toska_mesh.Prelude.{ℕ, ◌-◌, ◌^◌, ◌≡◌, refl, ◌≢◌, ◌⊎◌, inr, Option, none, some, [], ◌∷◌, arith}
use toska_mesh.Prelude.Text.{format_int}
use toska_mesh.Messaging.Identifiers.{generated, AllDistinct, generated-AllDistinct}

-- a counter that is about to wrap
abbrev publisher : Publisher
publisher = record { conn = some 0; ch = some 0; id_counter = 2 ^ 64 - 1 }

generated-AllDistinct_example : AllDistinct (generated publisher (7 ∷ 7 ∷ []))
generated-AllDistinct_example = generated-AllDistinct publisher (7 ∷ 7 ∷ []) (omega arith)

two_ids : generated publisher (7 ∷ 7 ∷ []) ≡ "7-0" ∷ "7-1" ∷ []
unfolding generate_id format_int
two_ids = refl

-- Its state is the open connection.
abbrev pub single : Broker
single = record {
  State = Option ℕ;
  dial = λ url w. (ok 7, some 7);
  open_channel = λ conn w. (ok 1, w);
  close_channel = λ ch w. (none, w);
  close_connection = λ conn w. (none, none);
  exchange_declare = λ ch name w. (none, w);
  publish_message = λ ch exchange key message w. (none, w);
}

pub dialed_is_seven : (w : Option ℕ) (d : ℕ) → some 7 ≡ some d → (w ≡ some d) ⊎ (ok 7 ≡ ok d)
dialed_is_seven w d o = inr (cc)

pub closed_is_none : (w : Option ℕ) (c d : ℕ) → none ≡ some d → (w ≡ some d) × (d ≢ c)
closed_is_none w c d o = absurd (cc)

abbrev pub single_connections : Connections single
single_connections = record {
  IsOpen = λ d w. w ≡ some d;
  dial_opens = λ url w d o. dialed_is_seven w d o;
  open_channel_keeps = λ c w d o. o;
  close_channel_keeps = λ c w d o. o;
  close_connection_closes = λ c w d o. closed_is_none w c d o;
  exchange_declare_keeps = λ c name w d o. o;
  publish_message_keeps = λ c name type e w d o. o;
}
