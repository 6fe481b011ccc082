-- ===== src/Crm/Call.antt =====
-- The course of `sync_call_to_crm` of app/crm/contact_manager.py at the end of a call.
use ai_receptionist_for_immi.Prelude.{
  String, not, Option, none, some, List, [], ◌∷◌, ◌++◌, if◌then◌else◌, ℤ,
}
use ai_receptionist_for_immi.Dict.{Dict, get, get_or}
use ai_receptionist_for_immi.Value.{truthy, Value, null, integer, text, object}
use ai_receptionist_for_immi.Conversation.{label_value, CallState}
use ai_receptionist_for_immi.Worker.Rows.{object_of}
use ai_receptionist_for_immi.Crm.{either_field, Texts}
use ai_receptionist_for_immi.Crm.Sync.{
  attempt, build_tags, build_call_notes, custom_fields, resolved_name, updates_of, new_contact,
  Answers, CrmRequest, update_contact, create_contact, add_tags, add_note, queue_sync,
}

-- what `_queue_db_sync` sends
unfoldable pub payload_of : CallState → Value → ℤ → Dict Value
unfolding label_value
payload_of s contact_id lead_score =
    ("call_sid", text s.call_sid)
    ∷ ("ghl_contact_id", contact_id)
    ∷ ("language", text s.language)
    ∷ ("lead_score", integer lead_score)
    ∷ ("urgency_score", integer s.urgency_score)
    ∷ ("urgency_label", text (label_value s.urgency_label))
    ∷ ("intake", object (object_of s.intake))
    ∷ ("scheduled_at", text s.scheduled_at)
    ∷ ("appointment_id", text s.appointment_id)
    ∷ ("transferred_at", text s.transferred_at)
    ∷ []

module _ (env : Texts) where
  -- a contact that is known: its id stays the result, whatever raises
  unfoldable pub update_known :
      Answers → CallState → Value → ℤ → Option (List String) → Option String → List CrmRequest
  unfolding attempt custom_fields truthy get_or get build_call_notes
  update_known answers s contact_id lead_score none name = []
  update_known answers s contact_id lead_score (some tags) none = []
  update_known answers s contact_id lead_score (some tags) (some name) = attempt answers.takes (
      update_contact contact_id (updates_of env s.intake name)
      ∷ add_tags contact_id tags
      ∷ add_note contact_id (build_call_notes env s lead_score)
      ∷ [])

  -- what follows the answer to the new contact; after an exception the id stays what it was
  abbrev pub after_create :
      CallState → Value → ℤ → CrmRequest → Option (Option (Dict Value)) → Value × List CrmRequest
  after_create s contact_id lead_score request none = (contact_id, request ∷ [])
  after_create s contact_id lead_score request (some none) = (null, request ∷ [])
  after_create s contact_id lead_score request (some (some [])) = (null, request ∷ [])
  after_create s contact_id lead_score request (some (some (f ∷ contact))) =
      let id = either_field (f ∷ contact) "id" "contact_id" in
      (id, request ∷ add_note id (build_call_notes env s lead_score) ∷ [])

  unfoldable pub create_new :
      Answers
      → CallState
      → Value
      → ℤ
      → Option (List String)
      → Option String
      → Value × List CrmRequest
  unfolding custom_fields truthy get_or get build_call_notes
  create_new answers s contact_id lead_score none name = (contact_id, [])
  create_new answers s contact_id lead_score (some tags) none = (contact_id, [])
  create_new answers s contact_id lead_score (some tags) (some name) =
      after_create s contact_id lead_score
        (create_contact (new_contact env s name) tags (custom_fields env s.intake)) answers.created

  -- the part that may fail: the id, and the requests to the CRM
  unfoldable pub crm_part : Answers → CallState → Value → ℤ → Value × List CrmRequest
  unfolding truthy update_known create_new build_tags resolved_name
  crm_part answers s contact_id lead_score =
      if not answers.available
      then (contact_id, [])
      else if truthy contact_id
      then (
        contact_id,
        update_known answers s contact_id lead_score (build_tags env s lead_score)
            (resolved_name env s.intake),
      )
      else create_new answers s contact_id lead_score (build_tags env s lead_score)
          (resolved_name env s.intake)

  unfoldable pub sync_call_to_crm : Answers → CallState → Value → ℤ → Value × List CrmRequest
  unfolding crm_part payload_of
  sync_call_to_crm answers s contact_id lead_score =
      let part = crm_part answers s contact_id lead_score in
      (part.0, part.1 ++ queue_sync (payload_of s part.0 lead_score) ∷ [])
