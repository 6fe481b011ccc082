-- ===== src/Chat/Message.antt =====
-- app/chat/router.py: what `chat_websocket` does with one message, with `_build_openai_messages` and
-- `_maybe_advance_chat_phase`. The contexts that are fetched and the stream of the model are
-- arguments; the prefetch for a new phase is left out.
pub mod Streamed
use ai_receptionist_for_immi.Prelude.{
  ℕ, String, Bool, not, ◌&&◌, ◌||◌, Option, none, some, List, [], ◌∷◌, ◌++◌, map, ◌==◌,
  if◌then◌else◌, ◌⊕◌, contains, nonempty, is_nil, any, is_in,
}
use ai_receptionist_for_immi.Dict.{Dict}
use ai_receptionist_for_immi.Value.{truthy, Value}
use ai_receptionist_for_immi.Conversation.{Turn}
use ai_receptionist_for_immi.Context.{join}
use ai_receptionist_for_immi.Worker.{cut_text}
use ai_receptionist_for_immi.Chat.{
  Store, save_session, get_session, append_turn, Counters, check_rate_limit, ChatSession, Codec,
}

abbrev pub max_input_chars : ℕ
max_input_chars = 1000

abbrev pub rag_phases : List String
rag_phases = "URGENCY_TRIAGE" ∷ "INTAKE" ∷ "CONSULTATION_PITCH" ∷ "BOOKING" ∷ "CONFIRMATION" ∷ []

-- What Python makes of texts.
pub record ChatTexts : Type 0 where
  pub upper : String → String
  pub lower : String → String
  pub strip : String → String
  pub repr : Value → String

-- what is fetched for a message, and how the model answers it
pub record Fetched : Type 0 where
  -- the text for the prompt; `none` where the retrieval is missing, too slow or raises
  pub rag : Option String
  pub stats_context : String
  pub list_context : String
  pub crm_context : String
  -- the deltas of the stream, and whether it ends without an exception
  pub deltas : List String
  pub completes : Bool

-- One of the messages that the model gets.
pub record ModelMessage : Type 0 where
  pub role : String
  pub content : String

-- What leaves the server, to the client or to the model.
pub data Sent : Type 0 where
  send_token send_done send_error : String → Sent
  close_socket : ℕ → Sent
  ask_model : List ModelMessage → Sent

abbrev pub data_signals : List String
data_signals =
    "who called" ∷ "last caller" ∷ "last person" ∷ "person who called" ∷ "person that called"
    ∷ "who last" ∷ "who just" ∷ "most recent" ∷ "how many" ∷ "how much" ∷ "total" ∷ "average"
    ∷ "booking rate" ∷ "lead score" ∷ "which month" ∷ "busiest" ∷ "this week" ∷ "today"
    ∷ "last week" ∷ "last month" ∷ "callback" ∷ "appointment" ∷ "intake" ∷ []

abbrev pub not_found_note : String
not_found_note =
    "[SYSTEM: A database lookup was attempted for this query but returned no results. You must NOT invent caller names, phone numbers, case details, or statistics. State clearly that no matching record was found and suggest the user try a different search (e.g. phone number, different spelling, or 'show recent callers').]"

abbrev pub phase_map : List (String × String)
phase_map =
    ("PHASE:URGENCY_TRIAGE", "URGENCY_TRIAGE")
    ∷ ("PHASE:INTAKE", "INTAKE")
    ∷ ("PHASE:CONSULTATION_PITCH", "CONSULTATION_PITCH")
    ∷ ("PHASE:BOOKING", "BOOKING")
    ∷ ("PHASE:CONFIRMATION", "CONFIRMATION")
    ∷ ("PHASE:CLOSING", "CLOSING")
    ∷ []

-- the first marker in the text that names another phase
unfoldable pub new_phase : String → String → List (String × String) → Option String
unfolding contains
new_phase words current [] = none
new_phase words current ((marker, phase) ∷ table) =
    if contains words marker && not (phase == current)
    then some phase
    else new_phase words current table

abbrev pub given_parts : List String → List String
given_parts [] = []
given_parts (p ∷ parts) = if nonempty p then p ∷ given_parts parts else given_parts parts

module _ (env : ChatTexts) where
  abbrev pub collected : Dict Value → List String
  collected [] = []
  collected ((k, v) ∷ intake) =
      if truthy v then (k ⊕ "=" ⊕ env.repr v) ∷ collected intake else collected intake

  abbrev pub context_parts : ChatSession → String → List String
  context_parts session rag_context =
      (if is_nil session.intake
        then []
        else ("[Collected information so far]\n" ⊕ join ", " (collected session.intake)) ∷ [])
      ++ given_parts (rag_context ∷ [])

  abbrev pub turn_message : Turn → ModelMessage
  turn_message t = record {
    role = if t.role == "user" then "user" else "assistant";
    content = t.content;
  }

  unfoldable pub build_openai_messages : ChatSession → String → String → List ModelMessage
  unfolding join truthy
  build_openai_messages session system_prompt rag_context =
      let parts = context_parts session rag_context in
      (record { role = "system"; content = system_prompt }
        ∷ (if is_nil parts
            then []
            else record { role = "system"; content = join "\n\n" parts } ∷ []))
      ++ map turn_message session.turns

  -- the context of a message: the retrieval in the phases that it helps, and what the staff asks for
  unfoldable pub message_context : Bool → String → Fetched → String → String
  unfolding join contains
  message_context staff phase fetched user_text =
      let found : String = elim fetched.rag [ none ↦ "" | some t ↦ t ] in
      let rag_context = if staff || is_in phase rag_phases then found else "" in
      let extra =
        join "\n\n"
          (given_parts (fetched.stats_context ∷ fetched.list_context ∷ fetched.crm_context ∷ [])) in
      if not staff
      then rag_context
      else if nonempty extra
      then env.strip (extra ⊕ "\n\n" ⊕ rag_context)
      else if any (λ sig. contains (env.lower user_text) sig) data_signals
      then env.strip (not_found_note ⊕ (if nonempty rag_context then "\n\n" ⊕ rag_context else ""))
      else rag_context

abbrev pub joined : List String → String
joined [] = ""
joined (d ∷ ds) = d ⊕ joined ds

module _ (env : ChatTexts) (codec : Codec) where
  unfoldable pub save_phase : ChatSession → Option String → Store → Store
  unfolding save_session
  save_phase session none redis = redis
  save_phase session (some phase) redis =
      save_session codec (record session { phase = phase }) redis

  unfoldable pub maybe_advance_chat_phase : String → String → String → Store → Store
  unfolding get_session save_phase new_phase
  maybe_advance_chat_phase session_id response user_text redis =
      elim (get_session codec session_id redis) [
        | none ↦ redis
        | some session ↦
            save_phase session
              (new_phase (env.upper (response ⊕ " " ⊕ user_text)) session.phase phase_map) redis
      ]

  -- The stream of the answer, of which empty deltas are passed over. Where it raises, only the tokens
  -- so far and an error are sent.
  unfoldable pub answer_message : String → String → Fetched → Store → Store × List Sent
  unfolding append_turn maybe_advance_chat_phase
  answer_message session_id user_text fetched redis =
      let tokens = given_parts fetched.deltas in
      let full_response = joined tokens in
      let (stored, after) =
        append_turn codec session_id (record { role = "assistant"; content = full_response })
          redis in
      if fetched.completes
      then (
        maybe_advance_chat_phase session_id full_response user_text after,
        map send_token tokens ++ send_done full_response ∷ [],
      )
      else (redis, map send_token tokens ++ send_error "LLM error, please try again" ∷ [])

  -- behind the turn of the user; `staff` and `system_prompt` are those of the connection
  unfoldable pub reply_in :
      Bool → String → String → String → Fetched → Option ChatSession → Store → Store × List Sent
  unfolding build_openai_messages message_context answer_message
  reply_in staff system_prompt session_id user_text fetched none redis =
      (redis, close_socket 4410 ∷ [])
  reply_in staff system_prompt session_id user_text fetched (some session) redis =
      let context = message_context env staff session.phase fetched user_text in
      let (after, sent) = answer_message session_id user_text fetched redis in
      (after, ask_model (build_openai_messages env session system_prompt context) ∷ sent)

  -- One message of the client, `parsed` being its stripped text: the store, the counters of the limit
  -- and what is sent.
  unfoldable pub handle_message :
      Bool
      → String
      → String
      → String
      → Option String
      → Fetched
      → Store
      → Counters
      → Store × Counters × List Sent
  unfolding check_rate_limit append_turn reply_in cut_text
  handle_message staff system_prompt session_id key none fetched redis counters =
      (redis, counters, send_error "Invalid JSON" ∷ [])
  handle_message staff system_prompt session_id key (some message) fetched redis counters =
      let user_text = cut_text max_input_chars message in
      let (allowed, counted) = check_rate_limit key counters in
      let (session, stored) =
        append_turn codec session_id (record { role = "user"; content = user_text }) redis in
      let (after, sent) =
        reply_in staff system_prompt session_id user_text fetched session stored in
      if not (nonempty user_text)
      then (redis, counters, [])
      else if not allowed
      then (redis, counted, send_error "Rate limit exceeded" ∷ [])
      else (after, counted, sent)
