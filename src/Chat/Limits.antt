-- ===== src/Chat/Limits.antt =====
-- How much of a chat is kept, and how many messages are let through.
use ai_receptionist_for_immi.Prelude.{
  ℕ, zero, suc, ◌+◌, ◌-◌, ◌≤◌, min, String, ◌≡◌, refl, sym, ap, ◌∙◌, inl, inr, false, List, [], ◌∷◌,
  ◌++◌, append-nil, append_assoc, arith, eq_refl, ltb, if◌then◌else◌, Bool-cases, length,
  length-append, drop, length-drop, last_of,
}
use ai_receptionist_for_immi.Conversation.{Turn}
use ai_receptionist_for_immi.Chat.{with_turn, Counters, check_rate_limit, ChatSession}

module _ {ℓ} {A : Type ℓ} where
  drop-append : (k : ℕ) (xs ys : List A) → k ≤ length xs → drop k (xs ++ ys) ≡ drop k xs ++ ys
  drop-append zero xs ys h = refl
  drop-append (suc k) [] ys h = absurd (omega arith)
  drop-append (suc k) (x ∷ xs) ys h = drop-append k xs ys (omega arith)

  drop-nil : (k : ℕ) (xs : List A) → xs ≡ [] → drop k xs ≡ []
  drop-nil zero xs h = h
  drop-nil (suc k) [] h = refl
  drop-nil (suc k) (x ∷ xs) h = absurd (ground arith)

  drop-none : (k : ℕ) (xs : List A) → k ≡ 0 → xs ≡ drop k xs
  drop-none zero xs h = refl
  drop-none (suc k) xs h = absurd (omega arith)

  drop-drop : (a k m : ℕ) (xs : List A) → m ≡ k + a → drop a (drop k xs) ≡ drop m xs
  drop-drop a zero m xs h = ap (λ n. drop n xs) (omega arith)
  drop-drop a (suc k) m [] h = drop-nil a [] refl ∙ sym (drop-nil m [] refl)
  drop-drop a (suc k) zero (x ∷ xs) h = absurd (omega arith)
  drop-drop a (suc k) (suc m) (x ∷ xs) h = drop-drop a k m xs (omega arith)

  -- a window on a window with more behind it
  last_of-twice : (n : ℕ) (xs ys : List A) → last_of n (last_of n xs ++ ys) ≡ last_of n (xs ++ ys)
  last_of-twice n xs ys =
      let k = length xs - n in
      ap (λ zs. last_of n zs) (sym (drop-append k xs ys (omega arith)))
      ∙ drop-drop (length (drop k (xs ++ ys)) - n) k (length (xs ++ ys) - n) (xs ++ ys)
          (omega (arith, length-drop k (xs ++ ys), length-append xs ys))

  last_of-short : (n : ℕ) (xs : List A) → ltb n (length xs) ≡ false → xs ≡ last_of n xs
  last_of-short n xs h = drop-none (length xs - n) xs (ground arith)

-- the turns of a chat, one after another
abbrev pub with_turns : List Turn → ChatSession → ChatSession
with_turns [] s = s
with_turns (t ∷ ts) s = with_turns ts (with_turn t s)

turns-with_turn :
    (t : Turn) (s : ChatSession) → (with_turn t s).turns ≡ last_of 12 (s.turns ++ t ∷ [])
unfolding with_turn
turns-with_turn t s = elim (Bool-cases (ltb 12 (length (s.turns ++ t ∷ [])))) [
  | inl e ↦ rw (with_turn, e) refl
  | inr e ↦ rw (with_turn, e) (last_of-short 12 (s.turns ++ t ∷ []) e)
]

pub turns-two_turns :
    (t u : Turn) (s : ChatSession)
    → (with_turn u (with_turn t s)).turns ≡ last_of 12 (s.turns ++ t ∷ u ∷ [])
turns-two_turns t u s =
    turns-with_turn u (with_turn t s)
    ∙ ap (λ ts. last_of 12 (ts ++ u ∷ [])) (turns-with_turn t s)
    ∙ last_of-twice 12 (s.turns ++ t ∷ []) (u ∷ [])
    ∙ ap (last_of 12) (append_assoc s.turns (t ∷ []) (u ∷ []))

with_turns-from :
    (ts xs : List Turn) (s : ChatSession)
    → s.turns ≡ last_of 12 xs
    → (with_turns ts s).turns ≡ last_of 12 (xs ++ ts)
with_turns-from [] xs s h = h ∙ ap (λ zs. last_of 12 zs) (sym (append-nil xs))
with_turns-from (t ∷ ts) xs s h =
    with_turns-from ts (xs ++ t ∷ []) (with_turn t s)
      (turns-with_turn t s ∙ ap (λ zs. last_of 12 (zs ++ t ∷ [])) h ∙ last_of-twice 12 xs (t ∷ []))
    ∙ ap (λ zs. last_of 12 zs) (append_assoc xs (t ∷ []) ts)

-- A session that begins without turns holds the last twelve turns of its chat, however long it is.
pub turns-with_turns :
    (ts : List Turn) (s : ChatSession) → s.turns ≡ [] → (with_turns ts s).turns ≡ last_of 12 ts
turns-with_turns ts s h = with_turns-from ts [] s h

-- how many of so many messages are let through
abbrev pub let_through : ℕ → String → Counters → ℕ
let_through zero key counters = 0
let_through (suc n) key counters =
    let checked = check_rate_limit key counters in
    (if checked.0 then 1 else 0) + let_through n key checked.1

let_through-from :
    (n : ℕ) (key : String) (counters : Counters)
    → let_through n key counters ≡ min n (30 - counters key)
unfolding check_rate_limit
let_through-from zero key counters = omega arith
let_through-from (suc n) key counters =
    let next = (check_rate_limit key counters).1 in
    rw (let_through-from n key next, check_rate_limit, eq_refl key) (ground arith)

-- Of the messages that come from one address within one minute, the first thirty are let through and no
-- others.
pub let_through-min :
    (n : ℕ) (key : String) (counters : Counters)
    → counters key ≡ 0
    → let_through n key counters ≡ min n 30
let_through-min n key counters h = omega (arith, let_through-from n key counters, h)
