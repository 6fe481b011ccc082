-- ===== src/Agent.antt =====
-- app/agent/llm_agent.py: the stream of a response, from which lines that hold only a signal are
-- taken out, the signals and phase markers in a response, and the messages of a call.
-- `upper` is `str.upper`, `is_signal` tells whether _SIGNAL_LINE_RE matches a line, and `slot_of` is the
-- time behind CONFIRM_SLOT:, "" where there is none.
pub mod Streaming
pub mod Language
mod Tests
use Prim.Native.Char.{Char, code}
use Prim.Native.String
use ai_receptionist_for_immi.Prelude.{
  ℕ, String, Bool, true, false, not, ◌&&◌, Option, none, some, List, [], ◌∷◌, ◌++◌, ◌==◌, eqb,
  if◌then◌else◌, ◌⊕◌, contains, nonempty, is_in,
}
use ai_receptionist_for_immi.Conversation.{
  phase_value, Turn, Phase, greeting, identification, urgency_triage, intake_phase,
  consultation_pitch, booking, confirmation, closing,
}

abbrev pub newline : String
newline = "\n"

-- a character in front of the complete lines of a text and what follows them; true for a newline
abbrev pub extend : Bool → Char → List String × String → List String × String
extend true c parts = ("" ∷ parts.0, parts.1)
extend false c ([], rest) = ([], String.◌∷◌ c rest)
extend false c (line ∷ lines, rest) = (String.◌∷◌ c line ∷ lines, rest)

-- the loop `while "\n" in line_buf: line, line_buf = line_buf.split("\n", 1)`: the lines that it takes
-- off, and what it leaves
unfoldable pub split_lines : String → List String × String
split_lines String.[] = ([], "")
split_lines (String.◌∷◌ c s) = extend (eqb (code c) 10) c (split_lines s)

module _ (is_signal : String → Bool) where
  -- the lines that are not suppressed, each with its newline
  abbrev pub spoken_lines : List String → List String
  spoken_lines [] = []
  spoken_lines (line ∷ lines) =
      if is_signal line then spoken_lines lines else (line ⊕ newline) ∷ spoken_lines lines

  -- what `respond_stream` yields for the deltas of the model, with `line_buf` in front of them
  unfoldable pub stream_from : String → List String → List String
  unfolding split_lines
  stream_from line_buf [] =
      if nonempty line_buf && not (is_signal line_buf) then line_buf ∷ [] else []
  stream_from line_buf (delta ∷ deltas) =
      let parts = split_lines (line_buf ⊕ delta) in
      spoken_lines parts.0 ++ stream_from parts.1 deltas

  unfoldable pub respond_stream : List String → List String
  unfolding stream_from
  respond_stream deltas = stream_from "" deltas

pub record Agent : Type 0 where
  pub phase : Phase
  pub language : String
  pub runtime_context : String
  pub history : List Turn

unfoldable pub max_tokens : Phase → ℕ
max_tokens greeting = 75
max_tokens identification = 80
max_tokens urgency_triage = 100
max_tokens intake_phase = 150
max_tokens consultation_pitch = 250
max_tokens booking = 100
max_tokens confirmation = 100
max_tokens closing = 75

unfoldable pub switch_language : String → Agent → Agent
switch_language language a =
    if not (is_in language ("en" ∷ "es" ∷ [])) then a else record a { language = language }

-- what `check_signals` returns
pub record ResponseSignals : Type 0 where
  pub emergency_transfer : Bool
  pub schedule_now : Bool
  pub confirm_slot : String
  pub language_switch_es : Bool
  pub language_switch_en : Bool
  pub end_call : Bool

abbrev pub phase_map : List (String × Phase)
phase_map =
    ("PHASE:IDENTIFICATION", identification)
    ∷ ("PHASE:URGENCY_TRIAGE", urgency_triage)
    ∷ ("PHASE:INTAKE", intake_phase)
    ∷ ("PHASE:CONSULTATION_PITCH", consultation_pitch)
    ∷ ("PHASE:BOOKING", booking)
    ∷ ("PHASE:CONFIRMATION", confirmation)
    ∷ ("PHASE:CLOSING", closing)
    ∷ []

-- the first marker of the map that the text holds
pub first_marker : String → List (String × Phase) → Option Phase
first_marker shouted [] = none
first_marker shouted ((marker, phase) ∷ markers) =
    let rest = first_marker shouted markers in if contains shouted marker then some phase else rest

pub enter_phase : Option Phase → Agent → Agent × Option Phase
enter_phase none a = (a, none)
enter_phase (some phase) a = (
  record a { phase = phase },
  if phase_value phase == phase_value a.phase then none else some phase,
)

module _ (upper : String → String) (slot_of : String → String) where
  unfoldable pub process_signals : String → Agent → Agent
  unfolding switch_language
  process_signals response a =
      if contains (upper response) "LANGUAGE_SWITCH_ES"
      then switch_language "es" a
      else if contains (upper response) "LANGUAGE_SWITCH_EN"
      then switch_language "en" a
      else a

  -- the agent, and the phase that is prefetched where it is a new one
  unfoldable pub maybe_advance_phase : String → Agent → Agent × Option Phase
  unfolding first_marker enter_phase
  maybe_advance_phase response a = enter_phase (first_marker (upper response) phase_map) a

  unfoldable pub check_signals : String → ResponseSignals
  check_signals response = record {
    emergency_transfer = contains (upper response) "EMERGENCY_TRANSFER";
    schedule_now = contains (upper response) "SCHEDULE_NOW";
    confirm_slot = slot_of response;
    language_switch_es = contains (upper response) "LANGUAGE_SWITCH_ES";
    language_switch_en = contains (upper response) "LANGUAGE_SWITCH_EN";
    end_call = contains (upper response) "END_CALL";
  }

  -- the end of `respond_stream`: the response is stored, its signals are read, the phase follows
  unfoldable pub finish_response : String → Agent → Agent
  unfolding process_signals maybe_advance_phase
  finish_response full_response a =
      if nonempty full_response
      then (maybe_advance_phase full_response (
          process_signals full_response (record a {
            history = a.history ++ record { role = "assistant"; content = full_response } ∷ [];
          }))).0
      else a

module _ (prompt_en prompt_es : String) where
  -- `prompt_en` and `prompt_es` have the firm's name in them
  unfoldable pub build_messages : Agent → List Turn
  build_messages a =
      record { role = "system"; content = if a.language == "en" then prompt_en else prompt_es }
      ∷ ((if nonempty a.runtime_context
            then record { role = "system"; content = a.runtime_context } ∷ []
            else [])
          ++ a.history)

-- `get_history_for_db`
unfoldable pub get_history_for_db : List Turn → List Turn
get_history_for_db [] = []
get_history_for_db (m ∷ ms) =
    if is_in m.role ("user" ∷ "assistant" ∷ [])
    then m ∷ get_history_for_db ms
    else get_history_for_db ms
