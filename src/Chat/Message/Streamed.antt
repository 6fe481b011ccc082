-- ===== src/Chat/Message/Streamed.antt =====
-- app/chat/router.py: what the client has seen of an answer is what the session keeps of it.
use ai_receptionist_for_immi.Prelude.{
  String, ◌≡◌, refl, sym, ap, subst, ◌∙◌, Bool, true, Option, none, some, List, [], ◌∷◌, ◌++◌, map,
  arith, eq_refl, ◌⊕◌, nonempty, last_of,
}
use ai_receptionist_for_immi.Conversation.{Turn}
use ai_receptionist_for_immi.Chat.{
  Store, session_key, with_turn, save_session, get_session, append_turn, Counters, check_rate_limit,
  ChatSession, Codec,
}
use ai_receptionist_for_immi.Chat.Message.{
  phase_map, new_phase, given_parts, joined, save_phase, maybe_advance_chat_phase, answer_message,
  reply_in, handle_message, ChatTexts, Fetched, Sent, send_token, send_done,
}
use ai_receptionist_for_immi.Worker.{cut_text}
use ai_receptionist_for_immi.Chat.Limits.{turns-two_turns}

-- the tokens that the client gets, one after the other
abbrev pub seen : List Sent → String
seen [] = ""
seen (send_token t ∷ ss) = t ⊕ seen ss
seen (_ ∷ ss) = seen ss

-- What is written of a session is read back, in each phase.
abbrev pub ReadsBack : Codec → ChatSession → Type 0
ReadsBack codec s =
    (phase : String)
    → codec.loads (codec.dumps (record s { phase = phase })) ≡ some (record s { phase = phase })

module _ (env : ChatTexts) (codec : Codec) where
  get-save :
      (s : ChatSession) (redis : Store)
      → codec.loads (codec.dumps s) ≡ some s
      → get_session codec s.session_id (save_session codec s redis) ≡ some s
  unfolding get_session save_session
  get-save s redis r = ground (arith, eq_refl (session_key s.session_id), r)

  save_phase-phase :
      (s : ChatSession) (found : Option String) (redis : Store)
      → ReadsBack codec s
      → get_session codec s.session_id redis ≡ some s
      → (phase : String) × (get_session codec s.session_id (save_phase env codec s found redis)
          ≡ some (record s { phase = phase }))
  unfolding save_phase
  save_phase-phase s none redis h g = (s.phase, g)
  save_phase-phase s (some phase) redis h g =
      (phase, get-save (record s { phase = phase }) redis (h phase))

  advance-save_phase :
      (response user_text : String) (s : ChatSession) (redis : Store)
      → get_session codec s.session_id redis ≡ some s
      → maybe_advance_chat_phase env codec s.session_id response user_text redis
        ≡ save_phase env codec s
            (new_phase (env.upper (response ⊕ " " ⊕ user_text)) s.phase phase_map)
            redis
  unfolding maybe_advance_chat_phase
  advance-save_phase response user_text s redis g = ground (arith, g)

  append_turn_found :
      (t : Turn) (s : ChatSession) (redis : Store)
      → get_session codec s.session_id redis ≡ some s
      → append_turn codec s.session_id t redis
        ≡ (some (with_turn t s), save_session codec (with_turn t s) redis)
  unfolding append_turn
  append_turn_found t s redis g = rw (append_turn, g) refl

  seen-tokens :
      (ts : List String) (last : Sent)
      → seen (last ∷ []) ≡ ""
      → seen (map send_token ts ++ last ∷ []) ≡ joined ts
  seen-tokens [] last h = h
  seen-tokens (t ∷ ts) last h = ap (◌⊕◌ t) (seen-tokens ts last h)

abbrev pub user_turn : String → Turn
user_turn t = record { role = "user"; content = t }

abbrev pub assistant_turn : String → Turn
assistant_turn t = record { role = "assistant"; content = t }

module _ (env : ChatTexts) (codec : Codec) where
  complete-answer :
      (id user_text : String) (fetched : Fetched) (redis : Store)
      → fetched.completes ≡ true
      → let words = joined (given_parts fetched.deltas) in
        answer_message env codec id user_text fetched redis ≡ (
          maybe_advance_chat_phase env codec id words user_text
              (append_turn codec id (assistant_turn words) redis).1,
          map send_token (given_parts fetched.deltas) ++ send_done words ∷ [],
        )
  unfolding answer_message
  complete-answer id user_text fetched redis c = rw c refl

  answer_message-stored :
      (s : ChatSession) (user_text : String) (fetched : Fetched) (redis : Store)
      → ReadsBack codec (with_turn (assistant_turn (joined (given_parts fetched.deltas))) s)
      → get_session codec s.session_id redis ≡ some s
      → fetched.completes ≡ true
      → let r = answer_message env codec s.session_id user_text fetched redis in
        (phase : String) × (get_session codec s.session_id r.0
          ≡ some (record (with_turn (assistant_turn (seen r.1)) s) { phase = phase }))
  unfolding with_turn
  answer_message-stored s user_text fetched redis h g c =
      let tokens = given_parts fetched.deltas in
      let words = joined tokens in
      let next = with_turn (assistant_turn words) s in
      let after = save_session codec next redis in
      let saved = get-save env codec next redis (h next.phase) in
      let found = new_phase (env.upper (words ⊕ " " ⊕ user_text)) next.phase phase_map in
      let kept = save_phase-phase env codec next found after h saved in
      let sent = map send_token tokens ++ send_done words ∷ [] in
      let run : answer_message env codec s.session_id user_text fetched redis
          ≡ (save_phase env codec next found after, sent) =
        complete-answer s.session_id user_text fetched redis c
        ∙ ap (λ x. (maybe_advance_chat_phase env codec s.session_id words user_text x, sent))
            (ap (λ r. r.1) (append_turn_found env codec (assistant_turn words) s redis g))
        ∙ ap (λ x. (x, sent)) (advance-save_phase env codec words user_text next after saved) in
      subst
        (λ r.
          (phase : String) × (get_session codec s.session_id r.0
            ≡ some (record (with_turn (assistant_turn (seen r.1)) s) { phase = phase })))
        (sym run)
        (subst
          (λ w.
            (phase : String) × (get_session codec s.session_id
                (save_phase env codec next found after)
              ≡ some (record (with_turn (assistant_turn w) s) { phase = phase })))
          (sym (seen-tokens env codec tokens (send_done words) refl)) kept)

  open-message :
      (staff : Bool) (system_prompt key message : String) (fetched : Fetched) (redis : Store)
      (counters : Counters) (s : ChatSession)
      → get_session codec s.session_id redis ≡ some s
      → nonempty (cut_text 1000 message) ≡ true
      → (check_rate_limit key counters).0 ≡ true
      → let user_text = cut_text 1000 message in
        let r =
          handle_message env codec staff system_prompt s.session_id key
            (some message)
            fetched
            redis
            counters in
        let replied =
          reply_in env codec staff system_prompt s.session_id user_text fetched
            (some (with_turn (user_turn user_text) s))
            (save_session codec (with_turn (user_turn user_text) s) redis) in
        (r.0 ≡ replied.0) × (r.2 ≡ replied.1)
  unfolding handle_message
  open-message staff system_prompt key message fetched redis counters s g n a =
      ground
        (arith, n, a, append_turn_found env codec (user_turn (cut_text 1000 message)) s redis g)

  kept_session :
      (staff : Bool) (system_prompt key message : String) (fetched : Fetched) (redis : Store)
      (counters : Counters) (s : ChatSession)
      → ReadsBack codec (with_turn (user_turn (cut_text 1000 message)) s)
      → ReadsBack codec (
          with_turn
            (assistant_turn (joined (given_parts fetched.deltas)))
            (with_turn (user_turn (cut_text 1000 message)) s))
      → get_session codec s.session_id redis ≡ some s
      → nonempty (cut_text 1000 message) ≡ true
      → (check_rate_limit key counters).0 ≡ true
      → fetched.completes ≡ true
      → let r =
          handle_message env codec staff system_prompt s.session_id key
            (some message)
            fetched
            redis
            counters in
        (phase : String) × (get_session codec s.session_id r.0
          ≡ some
              (record (with_turn
                (assistant_turn (seen r.2))
                (with_turn (user_turn (cut_text 1000 message)) s)) { phase = phase }))
  unfolding with_turn reply_in
  kept_session staff system_prompt key message fetched redis counters s h1 h2 g n a c =
      let user_text = cut_text 1000 message in
      let s1 = with_turn (user_turn user_text) s in
      let redis1 = save_session codec s1 redis in
      let opened = open-message staff system_prompt key message fetched redis counters s g n a in
      let stored =
        answer_message-stored s1 user_text fetched redis1 h2
          (get-save env codec s1 redis (h1 s1.phase)) c in
      subst
        (λ store.
          (phase : String) × (get_session codec s.session_id store
            ≡ some
                (record (with_turn
                  (assistant_turn (
                    seen
                      (handle_message env codec staff system_prompt s.session_id key (some message)
                        fetched redis counters).2))
                  s1) { phase = phase })))
        (sym opened.0)
        (subst
          (λ sent.
            (phase : String) × (get_session codec s.session_id
                (reply_in env codec staff system_prompt s.session_id user_text fetched (some s1)
                  redis1).0
              ≡ some (record (with_turn (assistant_turn (seen sent)) s1) { phase = phase })))
          (sym opened.1) stored)

  -- Where the sessions are read back as they were written and the model answers to its end, the turns that
  -- the session holds afterwards are the last twelve of its turns before, the user's message, cut to 1000
  -- characters, and exactly the tokens that the client has been sent, as one turn; only the phase may
  -- have changed besides.
  pub handle_message-stored :
      (staff : Bool) (system_prompt key message : String) (fetched : Fetched) (redis : Store)
      (counters : Counters) (s : ChatSession)
      → ReadsBack codec (with_turn (user_turn (cut_text 1000 message)) s)
      → ReadsBack codec (
          with_turn
            (assistant_turn (joined (given_parts fetched.deltas)))
            (with_turn (user_turn (cut_text 1000 message)) s))
      → get_session codec s.session_id redis ≡ some s
      → nonempty (cut_text 1000 message) ≡ true
      → (check_rate_limit key counters).0 ≡ true
      → fetched.completes ≡ true
      → let r =
          handle_message env codec staff system_prompt s.session_id key
            (some message)
            fetched
            redis
            counters in
        (phase : String) × (get_session codec s.session_id r.0
          ≡ some (record s {
            turns =
                last_of 12
                  (s.turns ++ user_turn (cut_text 1000 message) ∷ assistant_turn (seen r.2) ∷ []);
            phase = phase;
          }))
  unfolding with_turn
  handle_message-stored staff system_prompt key message fetched redis counters s h1 h2 g n a c =
      let (phase, e) =
        kept_session staff system_prompt key message fetched redis counters s h1 h2 g n a c in
      (
        phase,
        e
            ∙ ap (λ ts. some (record s { turns = ts; phase = phase }))
                (turns-two_turns (user_turn (cut_text 1000 message))
                  (assistant_turn (
                    seen
                      (handle_message env codec staff system_prompt s.session_id key (some message)
                        fetched redis counters).2))
                  s),
      )
