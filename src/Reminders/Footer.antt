-- ===== src/Reminders/Footer.antt =====
-- Who gets a message of app/scheduling/reminders.py, and how it ends.
use text.Mathlib.TextLemmas.{append_assoc as text_assoc}
use ai_receptionist_for_immi.Prelude.{
  String, ◌≡◌, refl, sym, ap, ◌∙◌, ◌⊎◌, inl, inr, Bool, true, false, Option, none, some, List, [],
  ◌∷◌, ◌==◌, if◌then◌else◌, Bool-cases, Option-cases, ◌⊕◌,
}
use ai_receptionist_for_immi.Value.{Value}
use ai_receptionist_for_immi.Reminders.{
  stop_footer, check_sms_consent, confirmation_body, voicemail_body, after_sms, guarded,
  send_confirmation_sms, send_voicemail_follow_up_sms, SmsTexts, SmsAnswers, SmsRequest, send_sms,
  add_tags, queue_sms, queue_follow_up,
}

-- how a message in the language ends
abbrev pub opt_out : String → String
opt_out language =
    if language == "es"
    then "\nResponda STOP para cancelar mensajes."
    else "\nReply STOP to opt out."

-- a text that ends with the note
abbrev pub Stopped : String → String → Type 0
Stopped note body = (front : String) × (body ≡ front ⊕ note)

-- every message that is sent, or left to the other channel, has the note
abbrev pub AllStopped : String → List SmsRequest → Type 0
AllStopped note [] = Unit {0}
AllStopped note (send_sms contact_id body ∷ es) = Stopped note body × AllStopped note es
AllStopped note (queue_sms contact_id body ∷ es) = Stopped note body × AllStopped note es
AllStopped note (add_tags contact_id tags ∷ es) = AllStopped note es
AllStopped note (queue_follow_up contact_id appointment_id ∷ es) = AllStopped note es

Stopped-append : (note a b : String) → Stopped note b → Stopped note (a ⊕ b)
Stopped-append note a b (front, e) =
    (a ⊕ front, ap (λ t. a ⊕ t) e ∙ sym (text_assoc a front (note)))

Stopped-end : (note a : String) → Stopped note (a ⊕ note)
Stopped-end note a = (a, refl)

module _ (env : SmsTexts) where
  confirmation-Stopped :
      (appointment caller_name language : String)
      → Stopped (opt_out language) (confirmation_body env appointment caller_name language)
  unfolding confirmation_body stop_footer
  confirmation-Stopped appointment caller_name language = elim (Bool-cases (language == "es")) [
    | inl e ↦
        rw (confirmation_body, e)
          (Stopped-append _ _ _ (
            Stopped-append _ _ _ (
              Stopped-append _ _ _
                (Stopped-append _ _ _ (Stopped-append _ _ _ (Stopped-end _ env.law_firm_name))))))
    | inr e ↦
        rw (confirmation_body, e)
          (Stopped-append _ _ _ (
            Stopped-append _ _ _ (
              Stopped-append _ _ _
                (Stopped-append _ _ _ (Stopped-append _ _ _ (Stopped-end _ env.law_firm_name))))))
  ]

  voicemail-Stopped :
      (caller_name language : String)
      → Stopped (opt_out language) (voicemail_body env caller_name language)
  unfolding voicemail_body stop_footer
  voicemail-Stopped caller_name language = elim (Bool-cases (language == "es")) [
    | inl e ↦
        rw (voicemail_body, e)
          (Stopped-append _ _ _ (
            Stopped-append _ _ _ (
              Stopped-append _ _ _ (
                Stopped-append _ _ _ (
                  Stopped-end _
                    ". Un representante se comunicará con usted dentro de las próximas 2 horas hábiles.")))))
    | inr e ↦
        rw (voicemail_body, e)
          (Stopped-append _ _ _ (
            Stopped-append _ _ _ (
              Stopped-append _ _ _ (
                Stopped-append _ _ _ (
                  Stopped-end _
                    ". A representative will reach out within the next 2 business hours.")))))
  ]

  -- requests with consent, all of whose messages have the note, or no requests at all
  abbrev pub Consented : String → SmsAnswers → Option Bool × List SmsRequest → Type 0
  Consented language answers sent =
      (sent.1 ≡ [])
      ⊎ ((check_sms_consent env answers.contact ≡ some true) × AllStopped (opt_out language) sent.1)

  AllStopped-after_sms :
      (note : String) (contact_id : Value) (body : String) (answer : Option Bool)
      (follow : List SmsRequest) (ok : Bool)
      → Stopped note body
      → AllStopped note follow
      → AllStopped note (after_sms env contact_id body answer follow ok).1
  AllStopped-after_sms note contact_id body none follow ok s f = (s, tt)
  AllStopped-after_sms note contact_id body (some false) follow ok s f = (s, (s, tt))
  AllStopped-after_sms note contact_id body (some true) follow ok s f = (s, f)

  guarded-Consented :
      (language : String) (answers : SmsAnswers) (next : Option Bool × List SmsRequest)
      → AllStopped (opt_out language) next.1
      → Consented language answers (guarded env (check_sms_consent env answers.contact) next)
  guarded-Consented language answers next f =
      elim (Option-cases (check_sms_consent env answers.contact)) [
        | inl e ↦ rw e (inl refl)
        | inr (true, e) ↦ rw e (inr (refl, f))
        | inr (false, e) ↦ rw e (inl refl)
      ]

  -- The confirmation of an appointment and the answer to a voicemail are sent, or left to the other
  -- channel, only to a contact who has given consent, and each ends with the note on how to opt out, in
  -- Spanish where the language is "es" and in English else.
  pub messages-Consented :
      (answers : SmsAnswers) (contact_id : Value) (appointment caller_name language : String)
      → Consented language answers
          (send_confirmation_sms env answers contact_id appointment caller_name language)
        × Consented language answers
            (send_voicemail_follow_up_sms env answers contact_id caller_name language)
  unfolding send_confirmation_sms send_voicemail_follow_up_sms
  messages-Consented answers contact_id appointment caller_name language = (
    guarded-Consented language answers _ (
        AllStopped-after_sms (opt_out language) contact_id _ answers.sms _ answers.tags
          (confirmation-Stopped appointment caller_name language) tt),
    guarded-Consented language answers _ (
        AllStopped-after_sms (opt_out language) contact_id _ answers.sms [] true
          (voicemail-Stopped caller_name language) tt),
  )
