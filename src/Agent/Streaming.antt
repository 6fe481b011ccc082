-- ===== src/Agent/Streaming.antt =====
-- What the caller hears of a response, however the model cuts it into deltas.
use Prim.Native.Char.{Char, code}
use text.Mathlib.TextEquality.{Char-path}
use text.Mathlib.TextLemmas.{
  append_assoc as text_assoc, append-nil as text_nil, nil-append as nil_text,
  cons-append as cons_text,
}
use ai_receptionist_for_immi.Prelude.{
  String, ◌≡◌, refl, sym, ap, ◌∙◌, ◌⊎◌, inl, inr, Bool, true, false, not, ◌&&◌, List, [], ◌∷◌, ◌++◌,
  append_assoc, arith, eqb, Bool-cases, ◌⊕◌, nonempty, both_true, not-true,
}
use ai_receptionist_for_immi.Agent.{
  newline, extend, split_lines, spoken_lines, stream_from, respond_stream,
}

-- the lines of a text that is read in two parts
abbrev pub read_on : List String × String → String → List String × String
read_on parts t = (parts.0 ++ (split_lines (parts.1 ⊕ t)).0, (split_lines (parts.1 ⊕ t)).1)

extend-read_on :
    (b : Bool) (c : Char) (parts : List String × String) (t : String)
    → eqb (code c) 10 ≡ b
    → extend b c (read_on parts t) ≡ read_on (extend b c parts) t
unfolding split_lines
extend-read_on true c parts t h = refl
extend-read_on false c ([], rest) t h =
    ap (λ b. extend b c (split_lines (rest ⊕ t))) (sym h)
    ∙ ap (λ x. ((split_lines x).0, (split_lines x).1)) (sym (cons_text c rest t))
extend-read_on false c (line ∷ lines, rest) t h = refl

split_lines-append : (s t : String) → split_lines (s ⊕ t) ≡ read_on (split_lines s) t
unfolding split_lines
split_lines-append String.[] t = refl
split_lines-append (String.◌∷◌ c s) t =
    ap split_lines (cons_text c s t)
    ∙ ap (extend (eqb (code c) 10) c) (split_lines-append s t)
    ∙ extend-read_on (eqb (code c) 10) c (split_lines s) t refl

-- all the deltas in one text
abbrev pub joined : List String → String
joined [] = ""
joined (d ∷ ds) = d ⊕ joined ds

-- the text whose lines these are
abbrev pub whole : List String × String → String
whole ([], rest) = rest
whole (line ∷ lines, rest) = (line ⊕ newline) ⊕ whole (lines, rest)

whole-extend :
    (b : Bool) (c : Char) (parts : List String × String)
    → eqb (code c) 10 ≡ b
    → whole (extend b c parts) ≡ String.◌∷◌ c (whole parts)
whole-extend true c parts h =
    let e : c ≡ "\n" = Char-path c "\n" (ground arith) in
    cons_text "\n" "" (whole parts)
    ∙ ap (λ t. String.◌∷◌ "\n" t) (nil_text (whole parts))
    ∙ ap (λ d. String.◌∷◌ d (whole parts)) (sym e)
whole-extend false c ([], rest) h = refl
whole-extend false c (line ∷ lines, rest) h =
    ap (λ x. x ⊕ whole (lines, rest)) (cons_text c line newline)
    ∙ cons_text c (line ⊕ newline) (whole (lines, rest))

whole-split_lines : (s : String) → whole (split_lines s) ≡ s
unfolding split_lines
whole-split_lines String.[] = refl
whole-split_lines (String.◌∷◌ c s) =
    whole-extend (eqb (code c) 10) c (split_lines s) refl
    ∙ ap (λ t. String.◌∷◌ c t) (whole-split_lines s)

module _ (is_signal : String → Bool) where
  spoken_lines-append :
      (xs ys : List String)
      → spoken_lines is_signal (xs ++ ys) ≡ spoken_lines is_signal xs ++ spoken_lines is_signal ys
  spoken_lines-append [] ys = refl
  spoken_lines-append (x ∷ xs) ys = elim (Bool-cases (is_signal x)) [
    | inl e ↦ rw e (spoken_lines-append xs ys)
    | inr e ↦ rw e (ap (λ l. (x ⊕ newline) ∷ l) (spoken_lines-append xs ys))
  ]

  two_deltas :
      (buf d e : String) (ds : List String)
      → stream_from is_signal buf (d ∷ e ∷ ds) ≡ stream_from is_signal buf ((d ⊕ e) ∷ ds)
  unfolding stream_from
  two_deltas buf d e ds =
      let first = split_lines (buf ⊕ d) in
      let both : split_lines (buf ⊕ (d ⊕ e)) ≡ read_on first e =
        ap split_lines (sym (text_assoc buf d e)) ∙ split_lines-append (buf ⊕ d) e in
      sym (
        append_assoc (spoken_lines is_signal first.0)
          (spoken_lines is_signal (split_lines (first.1 ⊕ e)).0)
          (stream_from is_signal (split_lines (first.1 ⊕ e)).1 ds))
      ∙ ap (λ l. l ++ stream_from is_signal (split_lines (first.1 ⊕ e)).1 ds)
          (sym (spoken_lines-append first.0 (split_lines (first.1 ⊕ e)).0))
      ∙ ap (λ p. spoken_lines is_signal p.0 ++ stream_from is_signal p.1 ds) (sym both)

  one_delta :
      (buf d : String) (ds : List String)
      → stream_from is_signal buf (d ∷ ds) ≡ stream_from is_signal buf ((d ⊕ joined ds) ∷ [])
  one_delta buf d [] = ap (λ t. stream_from is_signal buf (t ∷ [])) (sym (text_nil d))
  one_delta buf d (e ∷ ds) =
      two_deltas buf d e ds
      ∙ one_delta buf (d ⊕ e) ds
      ∙ ap (λ t. stream_from is_signal buf (t ∷ [])) (text_assoc d e (joined ds))

  -- What is spoken does not depend on how the model cuts its response into deltas: it is what one delta
  -- with the whole response gives.
  pub respond_stream-joined :
      (deltas : List String)
      → respond_stream is_signal deltas ≡ respond_stream is_signal (joined deltas ∷ [])
  unfolding respond_stream stream_from
  respond_stream-joined [] = refl
  respond_stream-joined (d ∷ ds) = one_delta "" d ds

  -- no part of the speech is a signal line
  abbrev pub NoSignal : List String → Type 0
  NoSignal [] = Unit {0}
  NoSignal (y ∷ ys) =
      ((line : String) × ((y ≡ line) ⊎ (y ≡ line ⊕ newline)) × (is_signal line ≡ false))
      × NoSignal ys

  NoSignal-append : (xs ys : List String) → NoSignal xs → NoSignal ys → NoSignal (xs ++ ys)
  NoSignal-append [] ys h k = k
  NoSignal-append (x ∷ xs) ys h k = (h.0, NoSignal-append xs ys h.1 k)

  spoken_lines-NoSignal : (lines : List String) → NoSignal (spoken_lines is_signal lines)
  spoken_lines-NoSignal [] = tt
  spoken_lines-NoSignal (line ∷ lines) = elim (Bool-cases (is_signal line)) [
    | inl e ↦ rw e (spoken_lines-NoSignal lines)
    | inr e ↦ rw e ((line, inr refl, e), spoken_lines-NoSignal lines)
  ]

  kept : (buf : String) → (nonempty buf && not (is_signal buf)) ≡ true → is_signal buf ≡ false
  kept buf e = not-true (is_signal buf) (both_true (nonempty buf) (not (is_signal buf)) e).1

  -- Whatever the model sends, no part of what is spoken is a line that holds only a signal.
  pub stream_from-NoSignal :
      (buf : String) (deltas : List String) → NoSignal (stream_from is_signal buf deltas)
  unfolding stream_from
  stream_from-NoSignal buf [] = elim (Bool-cases (nonempty buf && not (is_signal buf))) [
    | inl e ↦ rw e ((buf, inl refl, kept buf e), tt)
    | inr e ↦ rw e tt
  ]
  stream_from-NoSignal buf (d ∷ ds) =
      let parts = split_lines (buf ⊕ d) in
      NoSignal-append (spoken_lines is_signal parts.0) (stream_from is_signal parts.1 ds)
        (spoken_lines-NoSignal parts.0) (stream_from-NoSignal parts.1 ds)

  -- no line of the text is taken for a signal
  abbrev pub Plain : List String × String → Type 0
  Plain ([], rest) = is_signal rest ≡ false
  Plain (line ∷ lines, rest) = (is_signal line ≡ false) × Plain (lines, rest)

  Plain-lines :
      (lines : List String) (rest : String)
      → Plain (lines, rest)
      → joined (spoken_lines is_signal lines ++ stream_from is_signal rest []) ≡ whole (lines, rest)
  unfolding stream_from
  Plain-lines [] String.[] h = refl
  Plain-lines [] (String.◌∷◌ c s) h = rw h (text_nil (String.◌∷◌ c s))
  Plain-lines (line ∷ lines) rest h =
      rw (h.0) (ap (λ t. (line ⊕ newline) ⊕ t) (Plain-lines lines rest h.1))

  -- A response with no signal line is spoken as the model has sent it, with nothing lost or added.
  pub respond_stream-Plain :
      (deltas : List String)
      → Plain (split_lines (joined deltas))
      → joined (respond_stream is_signal deltas) ≡ joined deltas
  unfolding respond_stream stream_from
  respond_stream-Plain deltas h =
      let parts = split_lines (joined deltas) in
      ap joined (respond_stream-joined deltas)
      ∙ ap
          (λ x. joined (
            spoken_lines is_signal (split_lines x).0 ++ stream_from is_signal (split_lines x).1 []))
          (nil_text (joined deltas))
      ∙ Plain-lines parts.0 parts.1 h
      ∙ whole-split_lines (joined deltas)
