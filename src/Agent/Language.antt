-- ===== src/Agent/Language.antt =====
-- The language of the agent beside that of the call, which are switched by different texts.
use text.Mathlib.TextLemmas.{nil-append as nil_text}
use ai_receptionist_for_immi.Prelude.{
  String, ◌≡◌, refl, ap, ◌∙◌, Bool, true, false, Option, none, some, List, [], ◌∷◌, ◌++◌,
  append-nil, arith, if◌then◌else◌, contains, nonempty,
}
use ai_receptionist_for_immi.Agent.{
  split_lines, spoken_lines, stream_from, respond_stream, switch_language, phase_map, first_marker,
  enter_phase, process_signals, maybe_advance_phase, check_signals, finish_response, Agent,
  ResponseSignals,
}
use ai_receptionist_for_immi.TurnLoop.{apply_signals, Loop}
use ai_receptionist_for_immi.Conversation.{Phase}
use ai_receptionist_for_immi.Agent.Streaming.{joined, respond_stream-joined}

language-enter_phase : (o : Option Phase) (a : Agent) → (enter_phase o a).0.language ≡ a.language
unfolding enter_phase
language-enter_phase none a = refl
language-enter_phase (some phase) a = refl

-- the language behind the two markers, Spanish first
abbrev switched : Bool → Bool → String → String
switched es en language = if es then "es" else if en then "en" else language

language-switch :
    (es en : Bool) (a : Agent)
    → (if es then switch_language "es" a else if en then switch_language "en" a else a).language
      ≡ switched es en a.language
unfolding switch_language
language-switch true en a = refl
language-switch false true a = refl
language-switch false false a = refl

language-apply_signals :
    (r : ResponseSignals) (l : Loop)
    → r.emergency_transfer ≡ false
    → r.end_call ≡ false
    → ((apply_signals r l).language ≡ switched r.language_switch_es r.language_switch_en l.language)
      × ((apply_signals r l).state.language
          ≡ switched r.language_switch_es r.language_switch_en l.state.language)
unfolding apply_signals
language-apply_signals r l h k = (ground (arith, h, k), ground (arith, h, k))

-- no signal on which the loop acts
abbrev pub Silent : ResponseSignals → Type 0
Silent r =
    (r.emergency_transfer ≡ false)
    × (r.end_call ≡ false)
    × (r.language_switch_es ≡ false)
    × (r.language_switch_en ≡ false)

unswitched :
    (r : ResponseSignals) (language : String)
    → r.language_switch_es ≡ false
    → r.language_switch_en ≡ false
    → switched r.language_switch_es r.language_switch_en language ≡ language
unswitched r language e n = ground (arith, e, n)

-- a last line that is suppressed leaves the lines before it
respond_stream-last :
    (is_signal : String → Bool) (deltas lines : List String) (last : String)
    → split_lines (joined deltas) ≡ (lines, last)
    → is_signal last ≡ true
    → respond_stream is_signal deltas ≡ spoken_lines is_signal lines
unfolding respond_stream stream_from
respond_stream-last is_signal deltas lines last e g =
    let none_left : stream_from is_signal last [] ≡ [] = rw g (ground arith) in
    respond_stream-joined is_signal deltas
    ∙ ap
        (λ t.
          spoken_lines is_signal (split_lines t).0 ++ stream_from is_signal (split_lines t).1 [])
        (nil_text (joined deltas))
    ∙ ap (λ p. spoken_lines is_signal p.0 ++ stream_from is_signal p.1 []) e
    ∙ ap (λ xs. spoken_lines is_signal lines ++ xs) none_left
    ∙ append-nil (spoken_lines is_signal lines)

module _ (upper : String → String) (slot_of : String → String) where
  language-finish_response :
      (response : String) (a : Agent)
      → nonempty response ≡ true
      → (finish_response upper slot_of response a).language
        ≡ switched
            (contains (upper response) "LANGUAGE_SWITCH_ES")
            (contains (upper response) "LANGUAGE_SWITCH_EN")
            a.language
  unfolding finish_response process_signals maybe_advance_phase
  language-finish_response response a h =
      let b = record a {
        history = a.history ++ record { role = "assistant"; content = response } ∷ [];
      } in
      rw h (
        language-enter_phase (first_marker (upper response) phase_map)
          (process_signals upper slot_of response b)
        ∙ language-switch (contains (upper response) "LANGUAGE_SWITCH_ES")
            (contains (upper response) "LANGUAGE_SWITCH_EN") b)

  -- The text that the loop reads for signals is what the stream yields, without the signal lines, while the
  -- agent reads the whole response. So where the last line of a response is suppressed, the response has
  -- the signal for Spanish, and the lines before it have no signal that the loop acts on, the agent goes on
  -- in Spanish and the call and its state stay in their language.
  pub switch_unheard :
      (is_signal : String → Bool) (deltas lines : List String) (last : String) (a : Agent)
      (l : Loop)
      → split_lines (joined deltas) ≡ (lines, last)
      → is_signal last ≡ true
      → nonempty (joined deltas) ≡ true
      → contains (upper (joined deltas)) "LANGUAGE_SWITCH_ES" ≡ true
      → Silent (check_signals upper slot_of (joined (spoken_lines is_signal lines)))
      → let heard = joined (respond_stream is_signal deltas) in
        ((finish_response upper slot_of (joined deltas) a).language ≡ "es")
        × ((apply_signals (check_signals upper slot_of heard) l).language ≡ l.language)
        × ((apply_signals (check_signals upper slot_of heard) l).state.language ≡ l.state.language)
  switch_unheard is_signal deltas lines last a l e g n es q =
      let f = language-finish_response (joined deltas) a n in
      let heard : joined (respond_stream is_signal deltas) ≡ joined (spoken_lines is_signal lines) =
        ap joined (respond_stream-last is_signal deltas lines last e g) in
      let signals = check_signals upper slot_of (joined (spoken_lines is_signal lines)) in
      let k = language-apply_signals signals l q.0 q.1 in
      (
        f
            ∙ ap
                (λ b. switched b (contains (upper (joined deltas)) "LANGUAGE_SWITCH_EN") a.language)
                es,
        ap (λ t. (apply_signals (check_signals upper slot_of t) l).language) heard
            ∙ k.0
            ∙ unswitched signals l.language q.2 q.3,
        ap (λ t. (apply_signals (check_signals upper slot_of t) l).state.language) heard
            ∙ k.1
            ∙ unswitched signals l.state.language q.2 q.3,
      )
