-- ===== src/Context/Window.antt =====
-- The window of turns over a whole call: its size, what leaves it, and the size of the summary.
use ai_receptionist_for_immi.Prelude.{
  ℕ, ◌+◌, ◌≤◌, String, ◌≡◌, refl, sym, ap, ◌∙◌, Option, none, some, List, [], ◌∷◌, ◌++◌, map,
  append-nil, append_assoc, arith, ltb, if◌then◌else◌, is_some, length, length-append, take, drop,
  take-append-drop, length-drop,
}
use ai_receptionist_for_immi.Conversation.{Turn, CallState}
use ai_receptionist_for_immi.Context.{history_max_turns, turns_to_compress, add_turn}

-- One turn of the dialogue, and the summary that the model would return if it is asked for one.
pub record Spoken : Type 0 where
  pub speaker : String
  pub said : String
  pub fragment : Option String

abbrev pub turn_of : Spoken → Turn
turn_of t = record { role = t.speaker; content = t.said }

unfoldable pub speak : CallState → List Spoken → CallState
unfolding add_turn
speak s [] = s
speak s (t ∷ ts) = speak (add_turn t.fragment t.speaker t.said s) ts

-- the part of the lengthened window that is given up for the summary, and the part that stays
pub given_up : Option String → List Turn → List Turn
given_up none ts = []
given_up (some _) ts = if ltb history_max_turns (length ts) then take turns_to_compress ts else []

pub kept : Option String → List Turn → List Turn
kept none ts = ts
kept (some _) ts = if ltb history_max_turns (length ts) then drop turns_to_compress ts else ts

turns-add_turn :
    (o : Option String) (speaker said : String) (s : CallState)
    → (add_turn o speaker said s).turns
      ≡ kept o (s.turns ++ record { role = speaker; content = said } ∷ [])
unfolding add_turn kept
turns-add_turn none speaker said s = ground (
  arith,
  take-append-drop turns_to_compress (s.turns ++ record { role = speaker; content = said } ∷ []),
)
turns-add_turn (some f) speaker said s = ground arith

given_up-append-kept : (o : Option String) (ts : List Turn) → given_up o ts ++ kept o ts ≡ ts
unfolding given_up kept
given_up-append-kept none ts = refl
given_up-append-kept (some f) ts = ground (arith, take-append-drop turns_to_compress ts)

-- the turns that a whole dialogue takes out of the window, oldest first
unfoldable pub left_out : CallState → List Spoken → List Turn
unfolding given_up
left_out s [] = []
left_out s (t ∷ ts) =
    given_up t.fragment (s.turns ++ turn_of t ∷ [])
    ++ left_out (add_turn t.fragment t.speaker t.said s) ts

-- No turn is lost, reordered or repeated: the turns that were given up for a summary, followed by
-- the window, are the window at the start followed by all that was said.
pub left_out-append-turns :
    (s : CallState) (ts : List Spoken)
    → left_out s ts ++ (speak s ts).turns ≡ s.turns ++ map turn_of ts
unfolding left_out speak
left_out-append-turns s [] = simp append-nil
left_out-append-turns s (t ∷ ts) =
    let s' = add_turn t.fragment t.speaker t.said s in
    let longer = s.turns ++ turn_of t ∷ [] in
    append_assoc (given_up t.fragment longer) (left_out s' ts) (speak s' ts).turns
    ∙ ap (λ l. given_up t.fragment longer ++ l) (left_out-append-turns s' ts)
    ∙ sym (append_assoc (given_up t.fragment longer) s'.turns (map turn_of ts))
    ∙ ap (λ l. l ++ map turn_of ts)
        (ap (λ l. given_up t.fragment longer ++ l) (turns-add_turn t.fragment t.speaker t.said s)
          ∙ given_up-append-kept t.fragment longer)
    ∙ append_assoc s.turns (turn_of t ∷ []) (map turn_of ts)

length-kept :
    (k : ℕ) (o : Option String) (ts : List Turn)
    → length ts ≤ 7 + k
    → length (kept o ts) ≤ 6 + k + (if is_some o then 0 else 1)
unfolding kept
length-kept k none ts h = omega arith
length-kept k (some f) ts h = ground (arith, length-drop turns_to_compress ts)

-- how many of the turns came with no summary to be had
abbrev pub failures : List Spoken → ℕ
failures [] = 0
failures (t ∷ ts) = (if is_some t.fragment then 0 else 1) + failures ts

length-speak :
    (k : ℕ) (s : CallState) (ts : List Spoken)
    → length s.turns ≤ 6 + k
    → length (speak s ts).turns ≤ 6 + k + failures ts
unfolding speak
length-speak k s [] h = omega arith
length-speak k s (t ∷ ts) h =
    let s' = add_turn t.fragment t.speaker t.said s in
    let longer = s.turns ++ turn_of t ∷ [] in
    let now : length s'.turns ≤ 6 + (k + (if is_some t.fragment then 0 else 1)) =
      rw turns-add_turn (
        omega (
          arith,
          length-kept k t.fragment longer (omega (arith, length-append s.turns (turn_of t ∷ []))),
        )) in
    omega (arith, length-speak (k + (if is_some t.fragment then 0 else 1)) s' ts now)

-- From a window of at most six turns, the window holds at most six turns and one more for each turn
-- at which the summary failed.
pub window_bound :
    (s : CallState) (ts : List Spoken)
    → length s.turns ≤ history_max_turns
    → length (speak s ts).turns ≤ history_max_turns + failures ts
window_bound s ts h = omega (arith, length-speak 0 s ts h)
