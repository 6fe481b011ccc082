-- ===== src/Context/Summary.antt =====
-- The size of the running summary.
use Prim.Native.String.count
use text.Mathlib.TextLemmas.{length-append as count-append}
use ai_receptionist_for_immi.Prelude.{
  ℕ, zero, suc, ◌+◌, ◌-◌, ◌≤◌, ◌<◌, String, count, ◌≡◌, refl, true, Option, none, some, List, [],
  ◌∷◌, arith, ◌⊕◌, nonempty,
}
use ai_receptionist_for_immi.Context.{
  summary_max_chars, drop_chars, last_chars, omitted, merge_summary, add_turn,
}
use ai_receptionist_for_immi.Conversation.{CallState}
use ai_receptionist_for_immi.Context.Window.{speak, Spoken}

count-drop_chars : (n : ℕ) (s : String) → count (drop_chars n s) ≡ count s - n
unfolding drop_chars
count-drop_chars zero s = omega arith
count-drop_chars (suc n) String.[] = rw count.nil (omega arith)
count-drop_chars (suc n) (String.◌∷◌ c s) = rw count.cons (omega (arith, count-drop_chars n s))

count-last_chars : (n : ℕ) (s : String) → count (last_chars n s) ≤ n
unfolding last_chars
count-last_chars n s = rw count-drop_chars (omega arith)

pub count-merge_summary :
    (old fragment : String)
    → count fragment ≤ summary_max_chars
    → count (merge_summary old fragment) ≤ summary_max_chars + count omitted
unfolding merge_summary
count-merge_summary old fragment h =
    let merged = old ⊕ "\n" ⊕ fragment in
    ground (
      arith,
      count-append omitted (last_chars summary_max_chars merged),
      count-last_chars summary_max_chars merged,
    )

-- the fragments of a dialogue fit the cap
abbrev pub AllFit : List Spoken → Type 0
AllFit [] = Unit {0}
AllFit (t ∷ ts) = ((f : String) → t.fragment ≡ some f → count f ≤ summary_max_chars) × AllFit ts

count-add_turn :
    (o : Option String) (speaker said : String) (s : CallState)
    → ((f : String) → o ≡ some f → count f ≤ summary_max_chars)
    → count s.summary ≤ summary_max_chars + count omitted
    → count (add_turn o speaker said s).summary ≤ summary_max_chars + count omitted
unfolding add_turn
count-add_turn none speaker said s fits h = ground arith
count-add_turn (some f) speaker said s fits h =
    ground (arith, fits f refl, count-merge_summary s.summary f (fits f refl))

-- While every fragment that the model returns fits 2000 characters, the summary never has more than
-- 2000 characters and the mark for what was left out.
pub summary_bound :
    (s : CallState) (ts : List Spoken)
    → AllFit ts
    → count s.summary ≤ summary_max_chars + count omitted
    → count (speak s ts).summary ≤ summary_max_chars + count omitted
unfolding speak
summary_bound s [] fits h = h
summary_bound s (t ∷ ts) fits h =
    summary_bound (add_turn t.fragment t.speaker t.said s) ts fits.1
      (count-add_turn t.fragment t.speaker t.said s fits.0 h)

count-last_chars_long : (n : ℕ) (s : String) → n ≤ count s → count (last_chars n s) ≡ n
unfolding last_chars
count-last_chars_long n s h = rw count-drop_chars (omega arith)

-- Whenever a merged summary is cut, it is 32 characters over the cap: the mark for what was left out is not
-- counted against it.
pub cut_summary_over_cap :
    (old fragment : String)
    → nonempty old ≡ true
    → summary_max_chars < count (old ⊕ "\n" ⊕ fragment)
    → count (merge_summary old fragment) ≡ summary_max_chars + 32
unfolding merge_summary
cut_summary_over_cap old fragment n h =
    let merged = old ⊕ "\n" ⊕ fragment in
    ground (
      arith,
      count-append omitted (last_chars summary_max_chars merged),
      count-last_chars_long summary_max_chars merged,
    )
