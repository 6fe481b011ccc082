-- ===== src/Crm/Handover.antt =====
-- From the end of a call to the database: what `_queue_db_sync` sends and `_handle_db_sync` writes.
use ai_receptionist_for_immi.Prelude.{
  ℕ, ◌≡◌, refl, ap, inl, inr, true, some, [], ◌∷◌, arith, Bool-cases, nonempty, leb_ℤ, pos,
}
use ai_receptionist_for_immi.Dict.{Dict, get, get_or}
use ai_receptionist_for_immi.Value.{truthy, Value, integer, text}
use ai_receptionist_for_immi.Conversation.{label_value, CallState}
use ai_receptionist_for_immi.Worker.{fields_of, Services}
use ai_receptionist_for_immi.Worker.Readings.{phone_of, duration_of, call_outcome_of}
use ai_receptionist_for_immi.Worker.Sync.{
  intake_of, score_fields, name_fields, duration_fields, row_of, conversation_row,
}
use ai_receptionist_for_immi.Worker.Rows.{object_of}
use ai_receptionist_for_immi.Crm.Call.{payload_of}

pub fields_of-object_of : (d : Dict Value) → fields_of (object_of d) ≡ d
unfolding fields_of
fields_of-object_of [] = refl
fields_of-object_of ((k, v) ∷ d) = ap (λ r. (k, v) ∷ r) (fields_of-object_of d)

zero_below : (n : ℕ) → leb_ℤ (pos 0) (pos n) ≡ true
zero_below n = ground arith

module _ (env : Services) where
  -- the row that the payload of a call gives
  abbrev sync_row : CallState → Value → ℕ → Dict Value → Dict Value → Dict Value
  sync_row s contact_id lead_score name duration =
      let payload = payload_of s contact_id (pos lead_score) in
      row_of env (text s.call_sid) payload (phone_of env (text s.call_sid) s.intake)
        (call_outcome_of env (text s.call_sid) payload)
        (("lead_score", integer (pos lead_score))
          ∷ ("urgency_score", integer s.urgency_score)
          ∷ ("urgency_label", text (label_value s.urgency_label))
          ∷ [])
        name duration

  conversation_row-sync :
      (s : CallState) (contact_id : Value) (lead_score : ℕ) (name duration : Dict Value)
      → name_fields env s.intake ≡ some name
      → duration_fields env
          (duration_of env (text s.call_sid) (payload_of s contact_id (pos lead_score)))
        ≡ some duration
      → conversation_row env (text s.call_sid) (payload_of s contact_id (pos lead_score)) s.intake
        ≡ some (sync_row s contact_id lead_score name duration)
  unfolding conversation_row score_fields payload_of get_or get
  conversation_row-sync s contact_id lead_score name duration n d =
      rw (zero_below lead_score, n, d) refl

  get-appointment :
      (s : CallState) (contact_id : Value) (lead_score : ℕ) (name duration : Dict Value)
      → nonempty s.appointment_id ≡ true
      → get (sync_row s contact_id lead_score name duration) "appointment_id"
        ≡ some (text s.appointment_id)
  unfolding row_of payload_of get_or get truthy
  get-appointment s contact_id lead_score name duration h =
      elim (Bool-cases (nonempty s.scheduled_at)) [
        | inl e ↦ rw (e, h) refl
        | inr e ↦ rw (e, h) refl
      ]

  -- At the end of a call with an appointment its scores and its appointment reach the database: the worker
  -- reads the intake of the call back from the payload, and the row that it makes of it has the lead
  -- score, the urgency and the id of the appointment, if the name of the caller and the duration of the
  -- call can be read.
  pub sync-conversation_row :
      (s : CallState) (contact_id : Value) (lead_score : ℕ) (name duration : Dict Value)
      → name_fields env s.intake ≡ some name
      → duration_fields env
          (duration_of env (text s.call_sid) (payload_of s contact_id (pos lead_score)))
        ≡ some duration
      → nonempty s.appointment_id ≡ true
      → (intake_of (get (payload_of s contact_id (pos lead_score)) "intake") ≡ some s.intake)
        × (row : Dict Value) × (conversation_row env
              (text s.call_sid)
              (payload_of s contact_id (pos lead_score))
              s.intake
            ≡ some row)
        × (get row "lead_score" ≡ some (integer (pos lead_score)))
        × (get row "urgency_score" ≡ some (integer s.urgency_score))
        × (get row "urgency_label" ≡ some (text (label_value s.urgency_label)))
        × (get row "appointment_id" ≡ some (text s.appointment_id))
  unfolding row_of get payload_of intake_of
  sync-conversation_row s contact_id lead_score name duration n d h = (
    ap some (fields_of-object_of s.intake),
    sync_row s contact_id lead_score name duration,
    conversation_row-sync s contact_id lead_score name duration n d,
    refl,
    refl,
    refl,
    get-appointment s contact_id lead_score name duration h,
  )
