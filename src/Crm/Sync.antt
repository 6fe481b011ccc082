-- ===== src/Crm/Sync.antt =====
-- `sync_call_to_crm` of app/crm/contact_manager.py, with `_build_tags`, `_build_call_notes`,
-- `_intake_to_custom` and `_queue_db_sync`.
use ai_receptionist_for_immi.Prelude.{
  String, Bool, Option, none, some, List, [], ◌∷◌, ◌++◌, ◌==◌, if◌then◌else◌, ◌>>=◌, ◌⊕◌, nonempty,
  is_nil, leb_ℤ, ℤ, pos,
}
use ai_receptionist_for_immi.Dict.{Dict, get, put, get_or}
use ai_receptionist_for_immi.Value.{truthy, Value, null, boolean, integer, text, array, object}
use ai_receptionist_for_immi.Context.{join}
use ai_receptionist_for_immi.Conversation.{
  label_value, CallState, UrgencyLabel, low, medium, high, emergency,
}
use ai_receptionist_for_immi.Worker.{or_value, field_of, only_if, is_null, cut_text}
use ai_receptionist_for_immi.Worker.Sync.{part_of}
use ai_receptionist_for_immi.Worker.Rows.{object_of}
use ai_receptionist_for_immi.Crm.{Texts}

pub data CrmRequest : Type 0 where
  update_contact : Value → Dict Value → CrmRequest
  create_contact : Dict Value → List String → Dict Value → CrmRequest
  add_tags : Value → List String → CrmRequest
  add_note : Value → String → CrmRequest
  -- `rpush("db_sync_queue", …)`
  queue_sync : Dict Value → CrmRequest

-- What the CRM answers; a request that is not taken raises.
pub record Answers : Type 0 where
  pub available : Bool
  pub takes : CrmRequest → Bool
  -- of a contact that is created: `none` is an exception, `some none` no contact
  pub created : Option (Option (Dict Value))

-- requests up to the first that raises
unfoldable pub attempt : (CrmRequest → Bool) → List CrmRequest → List CrmRequest
attempt takes [] = []
attempt takes (e ∷ es) = let rest = attempt takes es in if takes e then e ∷ rest else e ∷ []

abbrev pub field_map : List (String × String)
field_map =
    ("current_immigration_status", "immigration_status")
    ∷ ("case_type", "case_type")
    ∷ ("country_of_birth", "country_of_birth")
    ∷ ("nationality", "nationality")
    ∷ ("entry_date_us", "us_entry_date")
    ∷ ("prior_applications", "prior_filings")
    ∷ ("has_attorney", "has_current_attorney")
    ∷ ("preferred_language", "preferred_language")
    ∷ ("preferred_contact_time", "preferred_contact_time")
    ∷ []

module _ (env : Texts) where
  -- the tag of a case type, which has to be a text
  abbrev pub case_tags : Value → Option (List String)
  case_tags (text t) = some (
      if nonempty (env.lower t)
      then ("case-" ⊕ cut_text 30 (env.safe_tag (env.lower t))) ∷ []
      else [])
  case_tags null = none
  case_tags (boolean b) = none
  case_tags (integer n) = none
  case_tags (array xs) = none
  case_tags (object fs) = none

  abbrev pub tier_tag : ℤ → String
  tier_tag lead_score =
      if leb_ℤ (pos 75) lead_score
      then "lead-hot"
      else if leb_ℤ (pos 50) lead_score
      then "lead-warm"
      else "lead-cold"

  abbrev pub urgency_tags : UrgencyLabel → List String
  urgency_tags emergency = "urgency-emergency" ∷ []
  urgency_tags high = "urgency-high" ∷ []
  urgency_tags medium = []
  urgency_tags low = []

  unfoldable pub build_tags : CallState → ℤ → Option (List String)
  unfolding get_or get cut_text
  build_tags s lead_score = do
    cases ← case_tags (get_or s.intake "case_type" (text ""))
    some (
        "ivr-lead"
        ∷ tier_tag lead_score
        ∷ (urgency_tags s.urgency_label
            ++ (cases ++ (if s.language == "es" then "spanish-speaker" ∷ [] else []))))

  abbrev pub intake_lines : Dict Value → List String
  intake_lines [] = []
  intake_lines ((k, v) ∷ d) =
      if truthy v then ("  " ⊕ k ⊕ ": " ⊕ env.str v) ∷ intake_lines d else intake_lines d

  unfoldable pub build_call_notes : CallState → ℤ → String
  unfolding join truthy label_value
  build_call_notes s lead_score = join "\n" (
      ("AI Intake Call — " ⊕ s.call_sid)
      ∷ ("Language: " ⊕ env.upper s.language)
      ∷ ("Lead Score: " ⊕ env.show lead_score ⊕ "/100")
      ∷ ("Urgency: " ⊕ label_value s.urgency_label ⊕ " (" ⊕ env.show s.urgency_score ⊕ "/10)")
      ∷ ((if is_nil s.intake then [] else "\nCollected intake:" ∷ intake_lines s.intake)
          ++ (if nonempty s.scheduled_at
              then ("\nAppointment booked: " ⊕ s.scheduled_at) ∷ []
              else [])))

  -- the fields that are not None, under the names of the CRM
  unfoldable pub intake_to_custom : List (String × String) → Dict Value → Dict Value → Dict Value
  unfolding get_or get put
  intake_to_custom [] intake out = out
  intake_to_custom ((intake_key, ghl_key) ∷ fields) intake out = intake_to_custom fields intake (
      if is_null (field_of intake intake_key)
      then out
      else put out ghl_key (text (env.str (field_of intake intake_key))))

  abbrev pub consent_field : Dict Value
  consent_field = ("sms_consent", text "yes") ∷ []

  unfoldable pub custom_fields : Dict Value → Dict Value
  unfolding intake_to_custom
  custom_fields intake = intake_to_custom field_map intake consent_field

  -- `.strip()`, which a text has
  abbrev pub stripped : Value → Option String
  stripped (text t) = some (env.strip t)
  stripped null = none
  stripped (boolean b) = none
  stripped (integer n) = none
  stripped (array xs) = none
  stripped (object fs) = none

  unfoldable pub resolved_name : Dict Value → Option String
  unfolding get_or get truthy join
  resolved_name intake =
      if truthy (field_of intake "full_name") then stripped (field_of intake "full_name") else do
        firsts ← part_of (field_of intake "first_name")
        lasts ← part_of (field_of intake "last_name")
        some (env.strip (join " " (firsts ++ lasts)))

  abbrev pub last_name_field : Option String → Dict Value
  last_name_field none = []
  last_name_field (some t) = ("lastName", text t) ∷ []

  abbrev pub name_updates : String → Dict Value
  name_updates name =
      if nonempty name
      then ("firstName", text (env.split_name name).0) ∷ last_name_field (env.split_name name).1
      else []

  abbrev pub updates_of : Dict Value → String → Dict Value
  updates_of intake name =
      only_if (truthy (field_of intake "email")) "email" (field_of intake "email")
      ++ (name_updates name ++ ("customField", object (object_of (custom_fields intake))) ∷ [])

  abbrev pub rest_of_name : Option String → String
  rest_of_name none = ""
  rest_of_name (some t) = t

  abbrev pub new_contact : CallState → String → Dict Value
  new_contact s name =
      (
        "phone",
        or_value (or_value (field_of s.intake "phone") (field_of s.intake "caller_phone"))
            (text ""),
      )
      ∷ ("first_name", text (if nonempty name then (env.split_name name).0 else ""))
      ∷ ("last_name", text (if nonempty name then rest_of_name (env.split_name name).1 else ""))
      ∷ ("email", get_or s.intake "email" (text ""))
      ∷ ("language", text s.language)
      ∷ []
