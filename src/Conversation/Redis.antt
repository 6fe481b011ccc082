-- ===== src/Conversation/Redis.antt =====
-- app/voice/conversation_state.py: `to_redis_mapping`, `from_redis_mapping`, `load_call_state` and
-- `save_call_state`. The readers and writers of JSON and of numbers are a parameter; a reader that
-- raises gives `none`.
use ai_receptionist_for_immi.Prelude.{
  ℕ, String, ◌≡◌, Option, none, some, List, [], ◌∷◌, ◌==◌, if◌then◌else◌, ◌>>=◌, ◌⊕◌, ℤ, pos,
  negsuc,
}
use ai_receptionist_for_immi.Dict.{Dict, get, put}
use ai_receptionist_for_immi.Value.{Value}
use ai_receptionist_for_immi.Conversation.{
  phase_value, phase_order, label_value, new, Turn, CallState, Phase, UrgencyLabel, low, medium,
  high, emergency,
}

-- `json.dumps` and `json.loads` at the two types that are stored, `str` and `int` of an integer, `str`
-- of a clock reading and `float` of its text.
pub record Codec : Type 0 where
  pub dumps_turns : List Turn → String
  pub loads_turns : String → Option (List Turn)
  pub dumps_intake : Dict Value → String
  pub loads_intake : String → Option (Dict Value)
  pub show_int : ℤ → String
  pub read_int : String → Option ℤ
  pub show_nat : ℕ → String
  pub read_nat : String → Option ℕ
  pub show_time : ℕ → String
  pub read_time : String → Option ℕ

-- Each reader undoes its writer on the fields of a call state.
pub record IsLawful (c : Codec) (s : CallState) : Type 0 where
  pub loads-turns : c.loads_turns (c.dumps_turns s.turns) ≡ some s.turns
  pub loads-intake : c.loads_intake (c.dumps_intake s.intake) ≡ some s.intake
  pub read-urgency : c.read_int (c.show_int s.urgency_score) ≡ some s.urgency_score
  pub read-lead : c.read_int (c.show_int s.lead_score) ≡ some s.lead_score
  pub read-phase_turns : c.read_nat (c.show_nat s.phase_turns) ≡ some s.phase_turns
  pub read-turn_count : c.read_nat (c.show_nat s.turn_count) ≡ some s.turn_count
  pub read-time : c.read_time (c.show_time s.last_updated) ≡ some s.last_updated

-- `ConversationPhase(value)`
abbrev pub find_phase : List Phase → String → Option Phase
find_phase [] value = none
find_phase (p ∷ ps) value = if phase_value p == value then some p else find_phase ps value

-- `UrgencyLabel(value)`
abbrev pub find_label : List UrgencyLabel → String → Option UrgencyLabel
find_label [] value = none
find_label (l ∷ ls) value = if label_value l == value then some l else find_label ls value

abbrev pub labels : List UrgencyLabel
labels = low ∷ medium ∷ high ∷ emergency ∷ []

module _ (c : Codec) where
  unfoldable pub to_redis_mapping : CallState → Dict String
  to_redis_mapping s =
      ("phase", phase_value s.phase)
      ∷ ("language", s.language)
      ∷ ("turns", c.dumps_turns s.turns)
      ∷ ("summary", s.summary)
      ∷ ("intake", c.dumps_intake s.intake)
      ∷ ("urgency_score", c.show_int s.urgency_score)
      ∷ ("urgency_label", label_value s.urgency_label)
      ∷ ("scheduled_at", s.scheduled_at)
      ∷ ("appointment_id", s.appointment_id)
      ∷ ("transferred_at", s.transferred_at)
      ∷ ("lead_score", c.show_int s.lead_score)
      ∷ ("phase_turns", c.show_nat s.phase_turns)
      ∷ ("turn_count", c.show_nat s.turn_count)
      ∷ ("last_updated", c.show_time s.last_updated)
      ∷ []

  -- a value read from a key, with the default of `data.get`
  abbrev pub read_or {ℓ} : {A : Type ℓ} → (String → Option A) → Option String → A → Option A
  read_or read none default = some default
  read_or read (some t) default = read t

  abbrev pub text_or : Option String → String → String
  text_or none default = default
  text_or (some t) default = t

  -- the fields behind the check for an empty hash; `look` is `data.get`
  unfoldable pub read_fields : String → (String → Option String) → ℕ → Option CallState
  read_fields sid look now = do
    phase ← find_phase phase_order (text_or (look "phase") "greeting")
    turns ← read_or c.loads_turns (look "turns") []
    intake ← read_or c.loads_intake (look "intake") []
    urgency_score ← read_or c.read_int (look "urgency_score") (pos 0)
    label ← find_label labels (text_or (look "urgency_label") "low")
    lead_score ← read_or c.read_int (look "lead_score") (negsuc 0)
    phase_turns ← read_or c.read_nat (look "phase_turns") 0
    turn_count ← read_or c.read_nat (look "turn_count") 0
    last_updated ← read_or c.read_time (look "last_updated") now
    some (record {
      call_sid = sid;
      phase = phase;
      language = text_or (look "language") "en";
      turns = turns;
      summary = text_or (look "summary") "";
      intake = intake;
      urgency_score = urgency_score;
      urgency_label = label;
      scheduled_at = text_or (look "scheduled_at") "";
      appointment_id = text_or (look "appointment_id") "";
      transferred_at = text_or (look "transferred_at") "";
      lead_score = lead_score;
      phase_turns = phase_turns;
      turn_count = turn_count;
      last_updated = last_updated;
    })

  unfoldable pub from_redis_mapping : String → Dict String → ℕ → Option CallState
  unfolding read_fields get
  from_redis_mapping sid [] now = some (new sid now)
  from_redis_mapping sid (f ∷ d) now = read_fields sid (get (f ∷ d)) now

  -- `hset key mapping`: the fields are written one by one over those that are there
  unfoldable pub hset : Dict String → Dict String → Dict String
  hset d [] = d
  hset d ((k, v) ∷ fields) = hset (put d k v) fields

  -- the hashes of Redis, by their keys
  unfoldable pub save_call_state : CallState → (String → Dict String) → String → Dict String
  unfolding hset to_redis_mapping
  save_call_state s redis key =
      if key == ("conversation:" ⊕ s.call_sid)
      then hset (redis key) (to_redis_mapping s)
      else redis key

  unfoldable pub load_call_state : String → (String → Dict String) → ℕ → Option CallState
  unfolding from_redis_mapping
  load_call_state sid redis now = from_redis_mapping sid (redis ("conversation:" ⊕ sid)) now
