-- ===== src/Social/Inbound.antt =====
-- app/social/webhook_handler.py: what is done with a message on a social channel. Redis, the contact and
-- the reply of the model are arguments; the reader of JSON gives `none` for what it cannot read, and a
-- saved context always has all of its keys. A reply that cannot be sent is only logged.
pub mod Bounded
use ai_receptionist_for_immi.Prelude.{
  ℕ, ◌*◌, String, Option, none, some, List, [], ◌∷◌, ◌++◌, ltb, if◌then◌else◌, ◌⊕◌, contains,
  nonempty, any, length, last_of,
}
use ai_receptionist_for_immi.Conversation.{Turn}
use ai_receptionist_for_immi.Worker.{cut_text}
use ai_receptionist_for_immi.Social.{route_message, format_reply, Settings}

abbrev pub max_context_turns : ℕ
max_context_turns = 8

-- `language` is `none` where a context has been written without one
pub record SocialContext : Type 0 where
  pub history : List Turn
  pub ghl_contact_id : String
  pub language : Option String
  pub channel : String
  pub author : String

pub data SocialRequest : Type 0 where
  -- `_send_reply`, and `_send_whatsapp_sandbox_reply` with the two numbers
  send_reply : (conversation_sid : String) → (reply : String) → SocialRequest
  send_whatsapp : (sender recipient reply : String) → SocialRequest
  save_context : (key : String) → SocialContext → SocialRequest
  log_analytics : (conversation_sid channel author user_message reply : String) → SocialRequest

abbrev pub new_context : SocialContext
new_context = record {
  history = [];
  ghl_contact_id = "";
  language = some "en";
  channel = "";
  author = "";
}

-- `raw` is what Redis holds under the key
unfoldable pub load_context : (String → Option SocialContext) → Option String → SocialContext
load_context loads none = new_context
load_context loads (some raw) =
    if nonempty raw then elim (loads raw) [ none ↦ new_context | some ctx ↦ ctx ] else new_context

abbrev pub es_markers : List String
es_markers =
    "hola" ∷ "gracias" ∷ "ayuda" ∷ "abogado" ∷ "visa" ∷ "caso" ∷ "necesito" ∷ "quiero" ∷ "tengo"
    ∷ "estoy" ∷ "cómo" ∷ "cuándo" ∷ "por favor" ∷ "buenos" ∷ "días" ∷ "tardes" ∷ []

-- `answer` is the reply of the model, `lookup` the result of `_lookup_ghl_contact`
module _ (settings : Settings) (lower strip_markdown : String → String) where
  unfoldable pub detect_language : String → String
  unfolding contains
  detect_language body = if any (contains (lower body)) es_markers then "es" else "en"

  -- the context behind the contact and the turn of the user
  unfoldable pub heard_context :
      String → String → Option String → String → SocialContext → SocialContext
  heard_context channel author lookup body ctx = record ctx {
    channel = channel;
    author = author;
    ghl_contact_id =
        if nonempty ctx.ghl_contact_id
        then ctx.ghl_contact_id
        else elim lookup [ none ↦ "" | some id ↦ id ];
    history = ctx.history ++ record { role = "user"; content = body } ∷ [];
  }

  abbrev pub language_of : String → SocialContext → String
  language_of body ctx = elim ctx.language [
    | none ↦ detect_language body
    | some language ↦ language
  ]

  -- the last sixteen turns with the reply
  unfoldable pub replied_context : String → String → SocialContext → SocialContext
  replied_context reply language ctx =
      let history = ctx.history ++ record { role = "assistant"; content = reply } ∷ [] in
      record ctx {
        language = some language;
        history =
            if ltb (max_context_turns * 2) (length history)
            then last_of (max_context_turns * 2) history
            else history;
      }

  abbrev pub log_of : String → String → String → String → String → SocialRequest
  log_of key channel author body reply =
      log_analytics key channel author (cut_text 500 body) (cut_text 500 reply)

  -- the two pipelines, which differ in how they send
  unfoldable pub process_message :
      (String → SocialRequest)
      → String
      → String
      → String
      → Option String
      → Option String
      → SocialContext
      → String
      → List SocialRequest
  unfolding heard_context route_message format_reply replied_context detect_language cut_text
  process_message send key channel author lookup answer loaded body =
      let ctx = heard_context channel author lookup body loaded in
      let (reply, language) =
        route_message settings lower (language_of body ctx) channel answer body in
      if nonempty body
      then send (format_reply strip_markdown reply channel)
        ∷ save_context ("social_ctx:" ⊕ key) (replied_context reply language ctx)
        ∷ log_of key channel author body reply
        ∷ []
      else []

  unfoldable pub process_social_message :
      String
      → String
      → String
      → Option String
      → Option String
      → SocialContext
      → String
      → List SocialRequest
  unfolding process_message
  process_social_message conversation_sid channel author lookup answer loaded body =
      process_message (send_reply conversation_sid) conversation_sid channel author lookup answer
        loaded body

  unfoldable pub process_whatsapp_message :
      String
      → String
      → String
      → Option String
      → Option String
      → SocialContext
      → String
      → List SocialRequest
  unfolding process_message
  process_whatsapp_message conversation_key sender to lookup answer loaded body =
      process_message (send_whatsapp to sender) conversation_key "whatsapp" sender lookup answer
        loaded body
