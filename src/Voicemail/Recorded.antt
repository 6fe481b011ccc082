-- ===== src/Voicemail/Recorded.antt =====
-- What is kept of every voicemail.
use ai_receptionist_for_immi.Prelude.{
  String, ◌≡◌, Bool, some, List, [], ◌∷◌, if◌then◌else◌, contains, any,
}
use ai_receptionist_for_immi.Dict.{Dict, get}
use ai_receptionist_for_immi.Value.{Value, boolean, text}
use ai_receptionist_for_immi.Voicemail.{VoicemailRequest, alert_attorney, queue_row}

-- the rows that are queued, and the numbers of which the attorney is told
abbrev pub rows_of : List VoicemailRequest → List (Dict Value)
rows_of [] = []
rows_of (queue_row row ∷ es) = row ∷ rows_of es
rows_of (_ ∷ es) = rows_of es

abbrev pub alerts_of : List VoicemailRequest → List String
alerts_of [] = []
alerts_of (alert_attorney number summary ∷ es) = number ∷ alerts_of es
alerts_of (_ ∷ es) = alerts_of es

-- a text in small letters that has a word of an emergency
abbrev pub names_emergency : String → Bool
names_emergency t = any (contains t) (
    "detained" ∷ "deportation" ∷ "ice" ∷ "arrest" ∷ "raid" ∷ "deport" ∷ "detenido" ∷ "deportación"
    ∷ "detención" ∷ "arresto" ∷ "emergency" ∷ "emergencia" ∷ "urgent" ∷ "urgente" ∷ [])

-- What is kept of a voicemail: one row with its status and its flag, and the alerts.
abbrev pub Kept : Bool → Bool → String → List VoicemailRequest → Type 0
Kept audio urgent number sent =
    (row : Dict Value) × (rows_of sent ≡ row ∷ [])
    × (get row "status" ≡ some (text (if audio then "processed" else "download_failed")))
    × (get row "is_emergency" ≡ some (boolean urgent))
    × (alerts_of sent ≡ (if urgent then number ∷ [] else []))
