-- ===== src/Crm/Consent.antt =====
-- What the sync of a call says of the consent to text messages, which app/scheduling/reminders.py reads.
use ai_receptionist_for_immi.Prelude.{
  String, ◌≡◌, refl, ◌∙◌, inl, inr, true, false, some, List, [], ◌∷◌, arith, ◌==◌, Bool-cases,
}
use ai_receptionist_for_immi.Dict.{Dict, get, put, get_or, get-put, get-get_or}
use ai_receptionist_for_immi.Value.{truthy, Value, text, object}
use ai_receptionist_for_immi.Worker.{field_of, is_null}
use ai_receptionist_for_immi.Worker.Rows.{object_of}
use ai_receptionist_for_immi.Crm.{Texts}
use ai_receptionist_for_immi.Crm.Sync.{field_map, intake_to_custom, consent_field, custom_fields}
use ai_receptionist_for_immi.Reminders.{check_sms_consent, SmsTexts}
use ai_receptionist_for_immi.Crm.Handover.{fields_of-object_of}

-- no field of the map is called `key`
abbrev Apart : String → List (String × String) → Type 0
Apart key [] = Unit {0}
Apart key ((intake_key, ghl_key) ∷ fields) = ((ghl_key == key) ≡ false) × Apart key fields

object_consents :
    (sms : SmsTexts) (custom contact : Dict Value)
    → sms.lower (sms.str (text "yes")) ≡ "yes"
    → get custom "sms_consent" ≡ some (text "yes")
    → check_sms_consent sms (some (some (("customField", object (object_of custom)) ∷ contact)))
      ≡ some true
unfolding check_sms_consent get_or get truthy
object_consents sms [] contact h g = absurd (ground arith)
object_consents sms ((k, v) ∷ custom) contact h g =
    rw
      (
        fields_of-object_of custom,
        get-get_or ((k, v) ∷ custom) "sms_consent" (text "yes") (text "") g,
        h,
      )
      refl

module _ (env : Texts) where
  get-intake_to_custom :
      (key : String) (fields : List (String × String)) (intake out : Dict Value)
      → Apart key fields
      → get (intake_to_custom env fields intake out) key ≡ get out key
  unfolding intake_to_custom
  get-intake_to_custom key [] intake out a = refl
  get-intake_to_custom key ((intake_key, ghl_key) ∷ fields) intake out a =
      elim (Bool-cases (is_null (field_of intake intake_key))) [
        | inl e ↦ rw e (get-intake_to_custom key fields intake out a.1)
        | inr e ↦ rw e (
            get-intake_to_custom key fields intake
              (put out ghl_key (text (env.str (field_of intake intake_key)))) a.1
            ∙ get-put out ghl_key key (text (env.str (field_of intake intake_key)))
            ∙ rw (a.0) refl)
      ]

  -- Whatever a caller has said, the custom fields that the end of the call writes to the contact make it
  -- one that has consented to text messages.
  pub sync_consents :
      (sms : SmsTexts) (intake contact : Dict Value)
      → sms.lower (sms.str (text "yes")) ≡ "yes"
      → check_sms_consent sms
          (some (some (("customField", object (object_of (custom_fields env intake))) ∷ contact)))
        ≡ some true
  unfolding custom_fields get
  sync_consents sms intake contact h = object_consents sms (custom_fields env intake) contact h (
      get-intake_to_custom "sms_consent" field_map intake (consent_field env)
        (refl, (refl, (refl, (refl, (refl, (refl, (refl, (refl, (refl, tt))))))))))
