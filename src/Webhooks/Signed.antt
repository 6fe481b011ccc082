-- ===== src/Webhooks/Signed.antt =====
-- app/webhooks/ghl_webhooks.py: which bodies are let in.
use Prim.Native.String.count
use Prim.Native.String.append
use text.Mathlib.TextEquality.{starts_with_iff}
use ai_receptionist_for_immi.Prelude.{
  String, count, ◌≡◌, refl, sym, ap, subst, ◌∙◌, inl, inr, Bool, true, false, not, ◌&&◌, Option,
  none, some, ◌==◌, starts_with, eq_iff, if◌then◌else◌, Bool-cases, ◌⊕◌, nonempty,
}
use ai_receptionist_for_immi.Webhooks.{
  is_ascii, compare_digest, validate_ghl_signature, receive, ghl_webhook, GhlEvent, EventStore,
  Response, forbidden, server_error,
}
use ai_receptionist_for_immi.Context.{drop_chars}

drop_chars-append : (s rest : String) → drop_chars (count s) (s ⊕ rest) ≡ rest
unfolding drop_chars
drop_chars-append String.[] rest = append.nil rest
drop_chars-append (String.◌∷◌ c s) rest =
    rw (count.cons c s, append.cons c s rest) (drop_chars-append s rest)

dropped :
    (rest header digest : String)
    → "sha256=" ⊕ rest ≡ header
    → digest == drop_chars 7 header ≡ true
    → rest ≡ digest
unfolding drop_chars
dropped rest header digest split same =
    let h : digest == drop_chars 7 ("sha256=" ⊕ rest) ≡ true =
      subst (λ h. digest == drop_chars 7 h ≡ true) (sym split) same in
    sym ((eq_iff digest rest).0 (rw (drop_chars-append "sha256=" rest) at h))

-- The digest in a header with the prefix has a character beyond ASCII.
abbrev pub beyond_ascii : String → Bool
beyond_ascii header = starts_with header "sha256=" && not (is_ascii (drop_chars 7 header))

abbrev pub turned_down : String → Response
turned_down header = if beyond_ascii header then server_error else forbidden

module _ (hmac : String → String → String) (loads : String → Option GhlEvent) where
  prefixed :
      (header digest : String)
      → starts_with header "sha256=" ≡ true
      → digest == drop_chars 7 header ≡ true
      → header ≡ "sha256=" ⊕ digest
  prefixed header digest t same =
      let (rest, split) = (starts_with_iff header "sha256=").0 t in
      sym split ∙ ap (λ r. "sha256=" ⊕ r) (dropped rest header digest split same)

  validated :
      (secret body header : String)
      → nonempty secret ≡ true
      → is_ascii (hmac secret body) ≡ true
      → ¬ (header ≡ "sha256=" ⊕ hmac secret body)
      → validate_ghl_signature hmac loads secret body header
        ≡ (if beyond_ascii header then none else some false)
  unfolding validate_ghl_signature compare_digest
  validated secret body header configured ascii unsigned =
      elim (Bool-cases (starts_with header "sha256=")) [
        | inr f ↦ rw (configured, f) refl
        | inl t ↦ elim (Bool-cases (is_ascii (drop_chars 7 header))) [
          | inr n ↦ rw (configured, t, ascii, n) refl
          | inl a ↦ elim (Bool-cases (hmac secret body == drop_chars 7 header)) [
            | inl same ↦ absurd (unsigned (prefixed header (hmac secret body) t same))
            | inr other ↦ rw (configured, t, ascii, a, other) refl
          ]
        ]
      ]

  receive-turned_down :
      (header body : String) (redis : EventStore)
      → receive hmac loads (if beyond_ascii header then none else some false) body redis
        ≡ (turned_down header, redis)
  receive-turned_down header body redis = elim (Bool-cases (beyond_ascii header)) [
    | inl t ↦ rw t refl
    | inr f ↦ rw f refl
  ]

  -- With a secret set and digests in ASCII, a body whose header is not "sha256=" and its digest under the
  -- secret changes nothing in Redis, whatever it holds: it is answered 403, or 500 where the header has
  -- the prefix and behind it a character beyond ASCII.
  pub ghl_webhook-refused :
      (secret body header : String) (redis : EventStore)
      → nonempty secret ≡ true
      → is_ascii (hmac secret body) ≡ true
      → ¬ (header ≡ "sha256=" ⊕ hmac secret body)
      → ghl_webhook hmac loads secret body header redis ≡ (turned_down header, redis)
  unfolding ghl_webhook
  ghl_webhook-refused secret body header redis configured ascii unsigned =
      ap (λ v. receive hmac loads v body redis)
        (validated secret body header configured ascii unsigned)
      ∙ receive-turned_down header body redis
