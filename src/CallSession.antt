-- ===== src/CallSession.antt =====
-- app/voice/websocket_handler.py: the start of a call, the transcripts that its turn loop gets, and what
-- follows its end (`_run_call` and `_finalize_call`). The answers of the services are arguments.
pub mod Hearing
pub mod Ended
mod Tests
use ai_receptionist_for_immi.Prelude.{
  ℕ, ◌+◌, String, Bool, true, not, ◌&&◌, List, [], ◌∷◌, ◌++◌, ◌==◌, starts_with, ltb, eqb,
  if◌then◌else◌, nonempty,
}
use ai_receptionist_for_immi.Dict.{Dict, get, put, get_or}
use ai_receptionist_for_immi.Value.{truthy, Value, text}
use ai_receptionist_for_immi.Conversation.{CallState}
use ai_receptionist_for_immi.Agent.{switch_language}
use ai_receptionist_for_immi.Worker.{field_of, is_null}

-- the parts of a `CallSession` that `on_transcript` reads and writes
pub record Line : Type 0 where
  pub is_speaking : Bool
  pub barged_in : Bool
  pub language : String
  pub agent : ai_receptionist_for_immi.Agent.Agent
  pub state : CallState
  pub low_conf_streak : ℕ
  -- `_transcript_queue`, and what `_speak` has said
  pub queue : List String
  pub spoken : List String

abbrev pub handoff : String
handoff = "__LOW_CONF_HANDOFF__"

abbrev pub repeat_message : String → String
repeat_message language =
    if language == "en"
    then "I'm sorry, I didn't quite catch that. Could you please repeat?"
    else "Lo siento, no entendí bien. ¿Puede repetir, por favor?"

-- Spanish in the words of the caller switches the session, the agent and the state.
unfoldable pub detect_spanish : String → Line → Line
unfolding switch_language
detect_spanish detected l =
    if starts_with detected "es" && (l.language == "en")
    then record l {
      language = "es";
      agent = switch_language "es" l.agent;
      state = record l.state { language = "es" };
    }
    else l

-- the streak counts this transcript
unfoldable pub count_low : Line → Line
count_low l =
    let streak = l.low_conf_streak + 1 in
    if eqb streak 3
    then record l { low_conf_streak = streak; queue = l.queue ++ handoff ∷ [] }
    else if ltb streak 3
    then record l { low_conf_streak = streak; spoken = l.spoken ++ repeat_message l.language ∷ [] }
    else record l { low_conf_streak = streak }

-- `on_transcript` of `_run_call`; `faint` is `confidence < 0.5`
unfoldable pub take_transcript : String → Bool → String → Line → Line
unfolding detect_spanish count_low
take_transcript words faint detected l =
    let heard = detect_spanish detected l in
    if l.is_speaking && not l.barged_in
    then l
    else if faint && nonempty words
    then count_low heard
    else record heard { low_conf_streak = 0; queue = heard.queue ++ words ∷ [] }

-- `on_speech_start` of `_run_call`
unfoldable pub start_speech : Line → Line
start_speech l = if l.is_speaking then record l { barged_in = true } else l

-- What the caller's number and the contact put into the intake at the start.
unfoldable pub seed_intake : String → Value → Dict Value → Dict Value
unfolding get put get_or truthy
seed_intake from_number caller_name intake =
    let with_phone =
      if nonempty from_number && not (truthy (field_of intake "caller_phone"))
      then put intake "caller_phone" (text from_number)
      else intake in
    if truthy caller_name && not (truthy (field_of with_phone "full_name"))
    then put with_phone "full_name" caller_name
    else with_phone

-- The intake that is extracted after the call is put into the one of the state; `None` and the keys of
-- the scheduling, which start with an underscore, are left out.
unfoldable pub merge_extracted : Dict Value → Dict Value → Dict Value
unfolding put
merge_extracted [] intake = intake
merge_extracted ((k, v) ∷ extracted) intake =
    merge_extracted extracted
      (if not (is_null v) && not (starts_with k "_") then put intake k v else intake)
