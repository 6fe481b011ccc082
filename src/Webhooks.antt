-- ===== src/Webhooks.antt =====
-- app/webhooks/ghl_webhooks.py: the events that GoHighLevel sends. `hmac` is the hexadecimal digest of
-- HMAC-SHA256 under a secret, and the reader of JSON gives `none` where the body is no JSON and each key
-- that is absent the default of its `get`; the parts of an event are kept as the text of their JSON.
pub mod Signed
mod Tests
use Prim.Native.Char.{code}
use ai_receptionist_for_immi.Dict.{Dict, put}
use ai_receptionist_for_immi.Prelude.{
  String, Bool, true, false, not, ◌&&◌, ◌||◌, Option, none, some, List, [], ◌∷◌, ◌++◌, ◌==◌,
  starts_with, ltb, if◌then◌else◌, nonempty,
}
use ai_receptionist_for_immi.Context.{drop_chars}

pub record GhlEvent : Type 0 where
  pub event_type : String
  -- contact.id and contact.phone
  pub ghl_id : String
  pub phone : String
  pub appointment : String
  pub opportunity : String

-- what Redis holds under ghl:contacts, ghl:appointment_events and ghl:opportunity_events
pub record EventStore : Type 0 where
  pub contacts : Dict String
  pub appointment_events : List (String × String)
  pub opportunity_events : List (String × String)

pub data Response : Type 0 where
  accepted : Response
  forbidden : Response
  bad_request : Response
  -- an exception that leaves the endpoint
  server_error : Response

unfoldable pub handle_contact_event : GhlEvent → EventStore → EventStore
handle_contact_event payload redis =
    if nonempty payload.ghl_id && nonempty payload.phone
    then record redis { contacts = put redis.contacts payload.phone payload.ghl_id }
    else redis

unfoldable pub handle_appointment_event : GhlEvent → EventStore → EventStore
handle_appointment_event payload redis = record redis {
  appointment_events = redis.appointment_events ++ (payload.event_type, payload.appointment) ∷ [];
}

unfoldable pub handle_opportunity_event : GhlEvent → EventStore → EventStore
handle_opportunity_event payload redis = record redis {
  opportunity_events = redis.opportunity_events ++ (payload.event_type, payload.opportunity) ∷ [];
}

unfoldable pub handle_event : GhlEvent → EventStore → EventStore
unfolding handle_contact_event handle_appointment_event handle_opportunity_event
handle_event payload redis =
    if payload.event_type == "contact.created" || payload.event_type == "contact.updated"
    then handle_contact_event payload redis
    else if starts_with payload.event_type "appointment."
    then handle_appointment_event payload redis
    else if starts_with payload.event_type "opportunity."
    then handle_opportunity_event payload redis
    else redis

-- all characters are ASCII
unfoldable pub is_ascii : String → Bool
is_ascii String.[] = true
is_ascii (String.◌∷◌ c t) = ltb (code c) 128 && is_ascii t

-- `hmac.compare_digest` on two texts: it raises, `none`, where one has a character beyond ASCII
unfoldable pub compare_digest : String → String → Option Bool
unfolding is_ascii
compare_digest a b = if is_ascii a && is_ascii b then some (a == b) else none

module _ (hmac : String → String → String) (loads : String → Option GhlEvent) where
  -- `none` is an exception
  unfoldable pub validate_ghl_signature : String → String → String → Option Bool
  unfolding drop_chars compare_digest
  validate_ghl_signature secret body signature_header =
      if not (nonempty secret)
      then some true
      else if not (starts_with signature_header "sha256=")
      then some false
      else compare_digest (hmac secret body) (drop_chars 7 signature_header)

  abbrev pub receive : Option Bool → String → EventStore → Response × EventStore
  receive none body redis = (server_error, redis)
  receive (some false) body redis = (forbidden, redis)
  receive (some true) body redis = elim (loads body) [
    | none ↦ (bad_request, redis)
    | some payload ↦ (accepted, handle_event payload redis)
  ]

  unfoldable pub ghl_webhook : String → String → String → EventStore → Response × EventStore
  unfolding validate_ghl_signature handle_event
  ghl_webhook secret body signature_header redis =
      receive (validate_ghl_signature secret body signature_header) body redis
