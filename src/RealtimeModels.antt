-- ===== src/RealtimeModels.antt =====
-- realtime_models.py and realtime_event_handler.py. Pydantic's JSON forms of an event and of an
-- envelope are parameters; `validate` gives `none` for `ValidationError`.
use fastapi_task_api.Base.{
  ℕ, ◌+◌, ◌/◌, ◌%◌, ltb, ◌++◌, ◌≡◌, Bool, true, false, ◌&&◌, Option, none, some, Result, ok, err,
  validation_error, List, [], ◌∷◌, map, leb, length, if◌then◌else◌,
}
use fastapi_task_api.Base.Int.{ℤ, pos, leb_ℤ, ◌≤ℤ◌}
use fastapi_task_api.Base.Text.{Text}
use fastapi_task_api.ConnectionManager.{
  WebSocket, ConnectionManager, Completion, connections_of, broadcast_to_user,
}

-- `ClientBroadcastMessage` accepts the content.
unfoldable pub is_client_content : Text → Bool
is_client_content content = leb 1 (length content) && leb (length content) 500

-- Its `type` is always "message".
pub record RealtimeMessageEvent : Type 0 where
  pub content : Text

pub record UserRealtimeEventEnvelope : Type 0 where
  pub user_id : ℤ
  pub event : RealtimeMessageEvent

-- `UserRealtimeEventEnvelope(user_id=…, event=…)`
unfoldable pub create_envelope : ℤ → RealtimeMessageEvent → Result UserRealtimeEventEnvelope
create_envelope user_id event =
    if leb_ℤ (pos 1) user_id
    then ok (record { user_id = user_id; event = event })
    else err validation_error

-- The bytes of a code point in UTF-8.
unfoldable pub encode_point : ℕ → List ℕ
encode_point c =
    if ltb c 0x80
    then c ∷ []
    else if ltb c 0x800
    then (0xC0 + c / 64) ∷ (0x80 + c % 64) ∷ []
    else if ltb c 0x10000
    then (0xE0 + c / 4096) ∷ (0x80 + c / 64 % 64) ∷ (0x80 + c % 64) ∷ []
    else (0xF0 + c / 262144) ∷ (0x80 + c / 4096 % 64) ∷ (0x80 + c / 64 % 64) ∷ (0x80 + c % 64) ∷ []

-- `encode("utf-8")`
unfoldable pub encode : Text → List ℕ
unfolding encode_point
encode [] = []
encode (c ∷ s) = encode_point c ++ encode s

-- A `str` or `bytes`.
pub data Serialized : Type 0 where
  text : Text → Serialized
  bytes : List ℕ → Serialized

pub record Json : Type 0 where
  -- `model_dump_json` of an envelope and of an event
  pub dump : UserRealtimeEventEnvelope → Text
  pub dump_event : RealtimeMessageEvent → Text
  -- `UserRealtimeEventEnvelope.model_validate_json`
  pub validate : Serialized → Option UserRealtimeEventEnvelope

-- An envelope that can be created reads back, from its text and from the bytes of it.
pub record JsonLaws (json : Json) : Type 0 where
  pub validate-dump :
      (e : UserRealtimeEventEnvelope)
      → pos 1 ≤ℤ e.user_id
      → json.validate (text (json.dump e)) ≡ some e
  pub validate_bytes-dump :
      (e : UserRealtimeEventEnvelope)
      → pos 1 ≤ℤ e.user_id
      → json.validate (bytes (encode (json.dump e))) ≡ some e

-- What `handle` comes to: its result, the texts that it sends, and the connections it leaves.
pub record Handled : Type 0 where
  pub is_valid : Bool
  pub sent : List (WebSocket × Text)
  pub manager : ConnectionManager

-- The text goes to each of the connections.
abbrev pub to_each : Text → List WebSocket → List (WebSocket × Text)
to_each message connections = map (λ c. (c, message)) connections

module _ (json : Json) where
  -- `handle` once the event is read. `completes` says how the sends to the connections end, and in
  -- which order.
  unfoldable pub deliver :
      (List WebSocket → List Completion)
      → Option UserRealtimeEventEnvelope
      → ConnectionManager
      → Handled
  deliver completes none m = record { is_valid = false; sent = []; manager = m }
  deliver completes (some envelope) m = record {
    is_valid = true;
    sent = to_each (json.dump_event envelope.event) (connections_of envelope.user_id m);
    manager = broadcast_to_user envelope.user_id (completes (connections_of envelope.user_id m)) m;
  }

  -- `RealtimeEventHandler.handle`
  unfoldable pub handle :
      (List WebSocket → List Completion) → Serialized → ConnectionManager → Handled
  unfolding deliver
  handle completes serialized_event m = deliver completes (json.validate serialized_event) m
