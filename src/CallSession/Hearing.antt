-- ===== src/CallSession/Hearing.antt =====
-- app/voice/websocket_handler.py: how often a caller who is hard to hear is asked to repeat.
use ai_receptionist_for_immi.Prelude.{
  ℕ, suc, ◌+◌, min, String, ◌≡◌, sym, ap, subst, ◌∙◌, true, false, not, ◌&&◌, List, [], ◌∷◌, ◌++◌,
  append-nil, append_assoc, arith, ltb, leb, if◌then◌else◌, nonempty, length, length-append,
}
use ai_receptionist_for_immi.CallSession.{
  handoff, repeat_message, detect_spanish, count_low, take_transcript, Line,
}

-- transcripts of low confidence, each with the language that was detected
unfoldable pub take_low : List (String × String) → Line → Line
unfolding take_transcript
take_low [] l = l
take_low ((words, detected) ∷ ts) l = take_low ts (take_transcript words true detected l)

abbrev pub AllWords : List (String × String) → Type 0
AllWords [] = Unit {0}
AllWords (t ∷ ts) = (nonempty t.0 ≡ true) × AllWords ts

-- the transcripts that are put into the queue between two numbers of the streak
abbrev pub handed_off : ℕ → ℕ → List String
handed_off before after = if ltb before 3 && leb 3 after then handoff ∷ [] else []

-- the parts of the line that the detection of the language leaves as they are
record Same (l after : Line) : Type 0 where
  speaking : after.is_speaking ≡ l.is_speaking
  barged : after.barged_in ≡ l.barged_in
  streak : after.low_conf_streak ≡ l.low_conf_streak
  queue : after.queue ≡ l.queue
  spoken : after.spoken ≡ l.spoken

detect_spanish-Same : (detected : String) (l : Line) → Same l (detect_spanish detected l)
unfolding detect_spanish
detect_spanish-Same detected l = record {
  speaking = ground arith;
  barged = ground arith;
  streak = ground arith;
  queue = ground arith;
  spoken = ground arith;
}

record OneLow (l after : Line) : Type 0 where
  speaking : after.is_speaking ≡ l.is_speaking
  barged : after.barged_in ≡ l.barged_in
  streak : after.low_conf_streak ≡ l.low_conf_streak + 1
  asked :
      length after.spoken + min 2 l.low_conf_streak
      ≡ length l.spoken + min 2 (l.low_conf_streak + 1)
  queued : after.queue ≡ l.queue ++ handed_off l.low_conf_streak (l.low_conf_streak + 1)

count_low-OneLow : (l : Line) → OneLow l (count_low l)
unfolding count_low
count_low-OneLow l = record {
  speaking = ground arith;
  barged = ground arith;
  streak = ground arith;
  asked = ground (arith, length-append l.spoken (repeat_message l.language ∷ []));
  queued = ground (arith, append-nil l.queue);
}

take_low-one :
    (words detected : String) (l : Line)
    → (l.is_speaking && not l.barged_in) ≡ false
    → nonempty words ≡ true
    → take_transcript words true detected l ≡ count_low (detect_spanish detected l)
unfolding take_transcript
take_low-one words detected l s w = ground (arith, s, w)

take_transcript-OneLow :
    (words detected : String) (l : Line)
    → (l.is_speaking && not l.barged_in) ≡ false
    → nonempty words ≡ true
    → OneLow l (take_transcript words true detected l)
take_transcript-OneLow words detected l s w =
    let h = detect_spanish-Same detected l in
    let o = count_low-OneLow (detect_spanish detected l) in
    subst (OneLow l) (sym (take_low-one words detected l s w)) (record {
      speaking = o.speaking ∙ h.speaking;
      barged = o.barged ∙ h.barged;
      streak = o.streak ∙ ap (λ n. n + 1) h.streak;
      asked = ground (arith, o.asked, h.streak, h.spoken);
      queued = ground (arith, o.queued, h.streak, h.queue);
    })

handed_off-append :
    (k n : ℕ) → handed_off k (k + 1) ++ handed_off (k + 1) (k + suc n) ≡ handed_off k (k + suc n)
handed_off-append k n = ground arith

low_run :
    (ts : List (String × String)) (l : Line)
    → (l.is_speaking && not l.barged_in) ≡ false
    → AllWords ts
    → let after = take_low ts l in
      (length after.spoken + min 2 l.low_conf_streak
        ≡ length l.spoken + min 2 (l.low_conf_streak + length ts))
      × (after.queue ≡ l.queue ++ handed_off l.low_conf_streak (l.low_conf_streak + length ts))
unfolding take_low
low_run [] l s w = (ground arith, ground (arith, append-nil l.queue))
low_run ((words, detected) ∷ ts) l s w =
    let next = take_transcript words true detected l in
    let o = take_transcript-OneLow words detected l s w.0 in
    let k = l.low_conf_streak in
    let n = length ts in
    let e : next.low_conf_streak + n ≡ k + suc n = omega (arith, o.streak) in
    let rest = low_run ts next (ground (arith, o.speaking, o.barged, s)) w.1 in
    (
      ground (arith, o.asked, o.streak, rest.0),
      rest.1
          ∙ ap (λ a. next.queue ++ handed_off next.low_conf_streak a) e
          ∙ ap (λ a. next.queue ++ handed_off a (k + suc n)) o.streak
          ∙ ap (λ q. q ++ handed_off (k + 1) (k + suc n)) o.queued
          ∙ append_assoc l.queue (handed_off k (k + 1)) (handed_off (k + 1) (k + suc n))
          ∙ ap (◌++◌ l.queue) (handed_off-append k n),
    )

-- However many transcripts of low confidence follow one another, the caller is asked to repeat after the
-- first two only, and the turn loop gets none of their words but one request for a handoff, at the
-- third.
pub low_confidence_run :
    (ts : List (String × String)) (l : Line)
    → (l.is_speaking && not l.barged_in) ≡ false
    → AllWords ts
    → l.low_conf_streak ≡ 0
    → let after = take_low ts l in
      (length after.spoken ≡ length l.spoken + min 2 (length ts))
      × (after.queue ≡ l.queue ++ (if leb 3 (length ts) then handoff ∷ [] else []))
low_confidence_run ts l s w z = ground (arith, z, low_run ts l s w)
