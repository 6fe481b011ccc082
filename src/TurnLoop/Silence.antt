-- ===== src/TurnLoop/Silence.antt =====
-- How the loop ends a call on which nobody speaks.
use ai_receptionist_for_immi.Prelude.{
  ℕ, ◌+◌, ◌-◌, ◌≤◌, ◌<◌, String, ◌≡◌, refl, ap, ◌∙◌, inl, inr, Bool, true, false, not, ◌&&◌, ◌||◌,
  List, [], ◌∷◌, arith, ltb, leb, if◌then◌else◌, Bool-cases,
}
use ai_receptionist_for_immi.Value.{Value}
use ai_receptionist_for_immi.TurnLoop.{on_timeout, step, run, Loop, Event, timeout}

leb-ltb : (a b : ℕ) → leb a b ≡ not (ltb b a)
leb-ltb a b = ground arith

choose :
    (w c d : Bool) (l : Loop)
    → l.active ≡ true
    → (if not w && c
        then record l { silence_warned = true }
        else if d
        then record l { active = false }
        else l).active
      ≡ not ((w || not c) && d)
choose true c true l a = refl
choose true c false l a = a
choose false true d l a = a
choose false false true l a = refl
choose false false false l a = a

module _ (str_lower : Value → String) (extract : String → String → String) (warning hard : ℕ) where
  pub run-active :
      (e : Event) (es : List Event) (l : Loop)
      → l.active ≡ true
      → run str_lower extract warning hard (e ∷ es) l
        ≡ run str_lower extract warning hard es (step str_lower extract warning hard e l)
  unfolding run
  run-active e es l a =
      ap
        (λ b.
          if b
          then run str_lower extract warning hard es (step str_lower extract warning hard e l)
          else l)
        a

  pub run-inactive :
      (es : List Event) (l : Loop) → l.active ≡ false → run str_lower extract warning hard es l ≡ l
  unfolding run
  run-inactive [] l a = refl
  run-inactive (e ∷ es) l a =
      ap
        (λ b.
          if b
          then run str_lower extract warning hard es (step str_lower extract warning hard e l)
          else l)
        a

module _ (warning hard : ℕ) where
  -- A second of silence ends an active call if and only if the caller was warned before, or the warning is not
  -- due, and the hard limit has passed.
  pub timeout_ends :
      (now : ℕ) (l : Loop)
      → l.active ≡ true
      → (on_timeout warning hard now l).active
        ≡ not (
            (l.silence_warned || leb (now - l.last_speech_time) warning)
            && ltb hard (now - l.last_speech_time))
  unfolding on_timeout
  timeout_ends now l a =
      let elapsed = now - l.last_speech_time in
      rw (leb-ltb elapsed warning)
        (choose l.silence_warned (ltb warning elapsed) (ltb hard elapsed) l a)

  timeout_warns :
      (now : ℕ) (l : Loop)
      → l.silence_warned ≡ false
      → l.last_speech_time + warning < now
      → on_timeout warning hard now l ≡ record l { silence_warned = true }
  unfolding on_timeout
  timeout_warns now l s h =
      let due : (not l.silence_warned && ltb warning (now - l.last_speech_time)) ≡ true =
        ground arith in
      ap
        (λ c.
          if c
          then record l { silence_warned = true }
          else if ltb hard (now - l.last_speech_time)
          then record l { active = false }
          else l)
        due

  timeout_stops :
      (now : ℕ) (l : Loop)
      → l.active ≡ true
      → l.silence_warned ≡ true
      → l.last_speech_time + hard < now
      → (on_timeout warning hard now l).active ≡ false
  timeout_stops now l a s h =
      let late : ltb hard (now - l.last_speech_time) ≡ true = ground arith in
      timeout_ends now l a ∙ rw (s, late) refl

  module _ (str_lower : Value → String) (extract : String → String → String) where
    -- a second of silence behind the hard limit, once the caller is warned
    warned_ends :
        (now : ℕ) (l : Loop) (es : List Event)
        → l.silence_warned ≡ true
        → l.last_speech_time + hard < now
        → (run str_lower extract warning hard (timeout now ∷ es) l).active ≡ false
    unfolding step
    warned_ends now l es w h = elim (Bool-cases l.active) [
      | inr a ↦
          ap (λ r. r.active) (run-inactive str_lower extract warning hard (timeout now ∷ es) l a)
          ∙ a
      | inl a ↦
          let stop = timeout_stops now l a w h in
          ap (λ r. r.active) (run-active str_lower extract warning hard (timeout now) es l a)
          ∙ ap (λ r. r.active)
              (run-inactive str_lower extract warning hard es (on_timeout warning hard now l) stop)
          ∙ stop
    ]

    -- Once the hard limit has passed in silence, and it is at least the limit of the warning, at most two
    -- more seconds of silence end the call: the first one only warns where no warning was given.
    pub two_timeouts_end :
        (now later : ℕ) (l : Loop) (es : List Event)
        → warning ≤ hard
        → l.last_speech_time + hard < now
        → now ≤ later
        → (run str_lower extract warning hard (timeout now ∷ timeout later ∷ es) l).active ≡ false
    unfolding step
    two_timeouts_end now later l es w h k = elim (Bool-cases l.silence_warned) [
      | inl s ↦ warned_ends now l (timeout later ∷ es) s h
      | inr s ↦ elim (Bool-cases l.active) [
        | inr a ↦
            ap (λ r. r.active)
              (run-inactive str_lower extract warning hard (timeout now ∷ timeout later ∷ es) l a)
            ∙ a
        | inl a ↦
            ap (λ r. r.active)
              (run-active str_lower extract warning hard (timeout now) (timeout later ∷ es) l a
                ∙ ap (run str_lower extract warning hard (timeout later ∷ es))
                    (timeout_warns now l s (omega arith)))
            ∙ warned_ends later (record l { silence_warned = true }) es refl (omega arith)
      ]
    ]
