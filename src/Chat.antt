-- ===== src/Chat.antt =====
-- app/chat/session.py: the sessions of the web chat in Redis, and the limit of messages per minute. A
-- session is stored as JSON; its reader and writer are a parameter, and a session that cannot be read
-- counts as missing. The session id and the time are arguments.
pub mod Limits
pub mod Message
mod Tests
use ai_receptionist_for_immi.Prelude.{
  ℕ, ◌+◌, ◌*◌, ◌/◌, String, count, Bool, Option, none, some, List, [], ◌∷◌, ◌++◌, ◌==◌, ltb, leb,
  if◌then◌else◌, ◌⊕◌, is_in, length, last_of,
}
use ai_receptionist_for_immi.Dict.{Dict}
use ai_receptionist_for_immi.Value.{Value, null}
use ai_receptionist_for_immi.Conversation.{Turn}

pub record ChatSession : Type 0 where
  pub session_id : String
  pub language : String
  pub created_at : ℕ
  pub turns : List Turn
  pub intake : Dict Value
  pub phase : String
  pub case_type : Value

-- Redis by its keys, and the counters of the rate limit
abbrev pub Store : Type 0
Store = String → Option String

pub record Codec : Type 0 where
  pub dumps : ChatSession → String
  pub loads : String → Option ChatSession

abbrev pub session_ttl : ℕ
session_ttl = 60 * 60 * 24

abbrev pub rate_limit_max : ℕ
rate_limit_max = 30

abbrev pub rate_window : ℕ
rate_window = 60

abbrev pub session_key : String → String
session_key session_id = "chat_session:" ⊕ session_id

-- the last 12 turns with the new one
unfoldable pub with_turn : Turn → ChatSession → ChatSession
with_turn t session =
    let turns = session.turns ++ t ∷ [] in
    record session { turns = if ltb 12 (length turns) then last_of 12 turns else turns }

module _ (c : Codec) where
  unfoldable pub save_session : ChatSession → Store → Store
  save_session session redis key =
      if key == session_key session.session_id then some (c.dumps session) else redis key

  unfoldable pub create_session : String → ℕ → String → Store → ChatSession × Store
  unfolding save_session
  create_session session_id now language redis =
      let session : ChatSession = record {
        session_id = session_id;
        language = if is_in language ("en" ∷ "es" ∷ []) then language else "en";
        created_at = now;
        turns = [];
        intake = [];
        phase = "GREETING";
        case_type = null;
      } in
      (session, save_session session redis)

  unfoldable pub get_session : String → Store → Option ChatSession
  get_session session_id redis = elim (redis (session_key session_id)) [
    | none ↦ none
    | some raw ↦ c.loads raw
  ]

  unfoldable pub append_turn : String → Turn → Store → Option ChatSession × Store
  unfolding get_session with_turn save_session
  append_turn session_id t redis = elim (get_session session_id redis) [
    | none ↦ (none, redis)
    | some session ↦ (some (with_turn t session), save_session (with_turn t session) redis)
  ]

  unfoldable pub delete_session : String → Store → Store
  delete_session session_id redis key = if key == session_key session_id then none else redis key

-- `chat_rate:{ip}:{window}`; `show` is Python's `str`
abbrev pub rate_key : (ℕ → String) → String → ℕ → String
rate_key show ip now = "chat_rate:" ⊕ ip ⊕ ":" ⊕ show (now / rate_window)

-- the counters by their keys; `incr` counts from 0
abbrev pub Counters : Type 0
Counters = String → ℕ

unfoldable pub check_rate_limit : String → Counters → Bool × Counters
check_rate_limit key counters =
    let count = counters key + 1 in
    (leb count rate_limit_max, λ k. if k == key then count else counters k)
