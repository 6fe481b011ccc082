-- ===== src/Voicemail.antt =====
-- app/telephony/voicemail.py: what is done for a voicemail. The recording, its transcript, the summary of
-- the model and the answers of the CRM are arguments.
pub mod Recorded
mod Tests
use ai_receptionist_for_immi.Prelude.{
  ℕ, String, Bool, false, not, ◌||◌, Option, none, some, List, [], ◌∷◌, ◌++◌, ◌==◌, if◌then◌else◌,
  ◌⊕◌, contains, nonempty, any,
}
use ai_receptionist_for_immi.Dict.{Dict}
use ai_receptionist_for_immi.Value.{truthy, Value, null, boolean, text}
use ai_receptionist_for_immi.Worker.{or_value, cut_text}

-- What the search for a contact gives: an exception, the id of the first contact found, or nobody.
pub data ContactSearch : Type 0 where
  search_raised : ContactSearch
  found : (id : String) → ContactSearch
  nobody : ContactSearch

-- What comes back: whether the recording could be read, its transcript, the summary, `none` where the
-- model raises, the search for the contact, the id of the contact that is created, "" where the CRM
-- gives none and `none` where it raises, and the id of the task, `null` where the CRM raises.
pub record Replies : Type 0 where
  pub audio : Bool
  pub transcript : String
  pub summary : Option String
  pub search : ContactSearch
  pub created : Option String
  pub task_id : Value

pub data VoicemailRequest : Type 0 where
  search_contacts : (phone : String) → VoicemailRequest
  create_contact : (phone : String) → VoicemailRequest
  -- contact, title, text
  create_task : String → String → String → VoicemailRequest
  alert_attorney : String → String → VoicemailRequest
  -- `rpush("voicemail_log_queue", …)`
  queue_row : Dict Value → VoicemailRequest

abbrev pub emergency_words : List String
emergency_words =
    "detained" ∷ "deportation" ∷ "ice" ∷ "arrest" ∷ "raid" ∷ "deport" ∷ "detenido" ∷ "deportación"
    ∷ "detención" ∷ "arresto" ∷ "emergency" ∷ "emergencia" ∷ "urgent" ∷ "urgente" ∷ []

abbrev pub heard : String → String
heard transcript = if nonempty transcript then transcript else "[Transcription unavailable]"

unfoldable pub summarise : String → Option String → String
unfolding cut_text
summarise transcript answer =
    if not (nonempty transcript) || transcript == "[Transcription unavailable]"
    then "No transcription available."
    else elim answer [ none ↦ cut_text 300 transcript | some t ↦ t ]

module _ (lower : String → String) (show : ℕ → String) where
  unfoldable pub is_emergency : String → Bool
  unfolding contains
  is_emergency transcript = any (contains (lower transcript)) emergency_words

  -- the row that the database worker reads
  unfoldable pub voicemail_row :
      String → String → String → String → String → String → Value → Bool → Dict Value
  unfolding cut_text
  voicemail_row call_sid recording_sid caller_number transcript summary status ghl_task_id
        emergency =
      ("type", text "voicemail_log")
      ∷ ("call_sid", text call_sid)
      ∷ ("recording_sid", text recording_sid)
      ∷ ("caller_number", text caller_number)
      ∷ ("transcript", text (cut_text 2000 transcript))
      ∷ ("summary", text summary)
      ∷ ("ghl_task_id", ghl_task_id)
      ∷ ("is_emergency", boolean emergency)
      ∷ ("status", text status)
      ∷ []

  -- the id of the task and the request for it, behind the guard on the id of the contact
  unfoldable pub task_for :
      String → Value → String → String → String → Bool → ℕ → Value × List VoicemailRequest
  unfolding cut_text
  task_for contact task_id caller_number transcript summary emergency duration =
      if not (nonempty contact) then (null, []) else (
        task_id,
        create_task contact
              ((if emergency then "🚨 URGENT — " else "")
                ⊕ "Voicemail from "
                ⊕ caller_number
                ⊕ " ("
                ⊕ show duration
                ⊕ "s)")
              ("Summary: " ⊕ summary ⊕ "\n\nFull transcript:\n" ⊕ cut_text 1000 transcript)
            ∷ [],
      )

  -- the requests from the search on, where a contact is created if nobody is found
  unfoldable pub create_ghl_task :
      ContactSearch
      → Option String
      → Value
      → String
      → String
      → String
      → Bool
      → ℕ
      → Value × List VoicemailRequest
  unfolding task_for
  create_ghl_task search_raised made task_id number transcript summary emergency duration =
      (null, search_contacts number ∷ [])
  create_ghl_task (found id) made task_id number transcript summary emergency duration =
      let task = task_for id task_id number transcript summary emergency duration in
      (task.0, search_contacts number ∷ task.1)
  create_ghl_task nobody none task_id number transcript summary emergency duration =
      (null, search_contacts number ∷ create_contact number ∷ [])
  create_ghl_task nobody (some id) task_id number transcript summary emergency duration =
      let task = task_for id task_id number transcript summary emergency duration in
      (task.0, search_contacts number ∷ create_contact number ∷ task.1)

  unfoldable pub process_voicemail : Replies → String → String → String → ℕ → List VoicemailRequest
  unfolding summarise is_emergency voicemail_row create_ghl_task truthy
  process_voicemail r recording_sid caller_number call_sid duration =
      if not r.audio
      then queue_row (
          voicemail_row call_sid recording_sid caller_number "" "" "download_failed" (text "")
            false)
        ∷ []
      else let transcript = heard r.transcript in
        let summary = summarise transcript r.summary in
        let emergency = is_emergency transcript in
        let task =
          create_ghl_task r.search r.created r.task_id caller_number transcript summary emergency
            duration in
        task.1
        ++ ((if emergency then alert_attorney caller_number summary ∷ [] else [])
            ++ queue_row (
                voicemail_row call_sid recording_sid caller_number transcript summary "processed"
                  (or_value task.0 (text "")) emergency)
              ∷ [])
