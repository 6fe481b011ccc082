-- ===== src/Chat/Tests.antt =====
-- Runs of app/chat/session.py, and the theorems of this part at concrete chats.
use Prim.Native.Char.{code}
use ai_receptionist_for_immi.Prelude.{
  String, ◌≡◌, refl, true, false, Option, none, some, [], ◌∷◌, ◌++◌, ◌==◌, eqb, if◌then◌else◌,
  length, last_of,
}
use ai_receptionist_for_immi.Conversation.{Turn}
use ai_receptionist_for_immi.Value.{null}
use ai_receptionist_for_immi.Worker.{cut_text}
use ai_receptionist_for_immi.Chat.Message.{
  handle_message, ChatTexts, Fetched, send_token, send_done, ask_model,
}
use ai_receptionist_for_immi.Chat.Message.Streamed.{
  seen, user_turn, assistant_turn, handle_message-stored,
}
use ai_receptionist_for_immi.Chat.{
  Store, with_turn, create_session, get_session, append_turn, delete_session, Counters,
  check_rate_limit, ChatSession, Codec,
}

abbrev said : String → Turn
said t = record { role = "user"; content = t }

abbrev chat : ChatSession
chat = record {
  session_id = "s1";
  language = "en";
  created_at = 0;
  turns = [];
  intake = [];
  phase = "GREETING";
  case_type = null;
}

-- a codec that writes the id and reads one session
abbrev codec : Codec
codec = record { dumps = λ s. s.session_id; loads = λ t. if t == "s1" then some chat else none }

abbrev no_sessions : Store
no_sessions key = none

session_test :
    ((create_session codec "s1" 0 "fr" no_sessions).0 ≡ chat)
    × ((append_turn codec "s1" (said "hi") (create_session codec "s1" 0 "fr" no_sessions).1).0
        ≡ some (record chat { turns = said "hi" ∷ [] }))
    × (get_session codec "s1"
          (delete_session codec "s1" (create_session codec "s1" 0 "fr" no_sessions).1)
        ≡ none)
unfolding create_session append_turn get_session delete_session
session_test = (refl, refl, refl)

-- a codec for a chat of one turn and for the one with an answer, with the phase behind a digit
abbrev asked : ChatSession
asked = record chat { turns = said "hello" ∷ [] }

abbrev answered : ChatSession
answered = record chat {
  turns = said "hello" ∷ record { role = "assistant"; content = "Hi there" } ∷ [];
}

-- the first character of a text before another
abbrev marked : String → String → String
marked String.[] t = t
marked (String.◌∷◌ c _) t = String.◌∷◌ c t

abbrev read_phase : String → Option ChatSession
read_phase String.[] = none
read_phase (String.◌∷◌ c t) =
    if eqb (code c) b'1'
    then some (record asked { phase = t })
    else if eqb (code c) b'2'
    then some (record answered { phase = t })
    else some chat

abbrev phase_codec : Codec
phase_codec = record {
  dumps = λ s.
      marked (if eqb (length s.turns) 1 then "1" else if eqb (length s.turns) 2 then "2" else "0")
        s.phase;
  loads = read_phase;
}

abbrev chat_texts : ChatTexts
chat_texts = record { upper = λ t. t; lower = λ t. t; strip = λ t. t; repr = λ v. "" }

abbrev fetched : Fetched
fetched = record {
  rag = none;
  stats_context = "";
  list_context = "";
  crm_context = "";
  deltas = "Hi " ∷ "" ∷ "there" ∷ [];
  completes = true;
}

abbrev opened : Store
opened key = if key == "chat_session:s1" then some "0GREETING" else none

abbrev fresh : Counters
fresh key = 0

message_test :
    (handle_message chat_texts phase_codec false "prompt" "s1" "ip"
      (some "hello")
      fetched
      opened
      fresh).2
    ≡ ask_model (
        record { role = "system"; content = "prompt" }
        ∷ record { role = "user"; content = "hello" }
        ∷ [])
      ∷ send_token "Hi "
      ∷ send_token "there"
      ∷ send_done "Hi there"
      ∷ []
unfolding handle_message
message_test = refl

handle_message-stored_example :
    let r =
      handle_message chat_texts phase_codec false "prompt" "s1" "ip"
        (some "hello")
        fetched
        opened
        fresh in
    (phase : String) × (get_session phase_codec "s1" r.0
      ≡ some (record chat {
        turns = last_of 12 (chat.turns ++ user_turn "hello" ∷ assistant_turn (seen r.2) ∷ []);
        phase = phase;
      }))
unfolding with_turn get_session check_rate_limit cut_text
handle_message-stored_example =
    handle_message-stored chat_texts phase_codec false "prompt" "ip" "hello" fetched opened fresh
      chat (λ phase. refl) (λ phase. refl) refl refl refl refl
