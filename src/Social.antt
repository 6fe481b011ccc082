-- ===== src/Social.antt =====
-- app/social/channel_router.py: which reply a message on a social channel gets, and how it is cut for its
-- channel. `lower` is `str.lower`, `strip_markdown` the chain of regular expressions of `_strip_markdown`,
-- and the reply of the model is an argument, `none` where the call of the model raises.
pub mod Lengths
pub mod Inbound
mod Tests
use ai_receptionist_for_immi.Prelude.{
  ℕ, String, count, Bool, Option, none, some, List, [], ◌∷◌, ◌==◌, ltb, if◌then◌else◌, ◌⊕◌,
  contains, any, is_in,
}
use ai_receptionist_for_immi.Dict.{Dict, get, get_or}
use ai_receptionist_for_immi.Worker.{cut_text}

pub record Settings : Type 0 where
  pub booking_url : String
  pub office_phone : String

abbrev pub booking_keywords_en : List String
booking_keywords_en =
    "appointment" ∷ "schedule" ∷ "book" ∷ "consult" ∷ "consultation" ∷ "meeting" ∷ "available"
    ∷ "availability" ∷ "slot" ∷ "when can" ∷ []

abbrev pub booking_keywords_es : List String
booking_keywords_es =
    "cita" ∷ "consulta" ∷ "horario" ∷ "agendar" ∷ "disponible" ∷ "disponibilidad" ∷ "reunión"
    ∷ "cuándo" ∷ "quando" ∷ []

abbrev pub emergency_keywords : List String
emergency_keywords =
    "detained" ∷ "deported" ∷ "deport" ∷ "ice arrest" ∷ "raid" ∷ "detenido" ∷ "deportación"
    ∷ "arresto" ∷ "redada" ∷ []

abbrev pub spanish_words : List String
spanish_words =
    "hola" ∷ "gracias" ∷ "ayuda" ∷ "necesito" ∷ "quiero" ∷ "tengo" ∷ "cómo" ∷ "usted" ∷ "por favor"
    ∷ "buenos" ∷ "días" ∷ "estoy" ∷ []

unfoldable pub is_spanish : String → Bool
unfolding contains
is_spanish t = any (contains t) spanish_words

abbrev pub channel_limits : Dict ℕ
channel_limits = ("sms", 160) ∷ ("whatsapp", 4096) ∷ ("messenger", 2000) ∷ ("instagram", 1000) ∷ []

module _ (env : Settings) where
  unfoldable pub build_booking_message : String → String → String
  build_booking_message language channel =
      if language == "es"
      then (if channel == "whatsapp"
          then "*Consulta Gratuita Disponible* ✅\n\nReserve su cita en línea aquí:\n"
            ⊕ env.booking_url ⊕ "\n\nO llámenos directamente: " ⊕ env.office_phone
            ⊕ "\n\nHorario: Lunes a Viernes, 9am–5pm"
          else "Consulta gratuita disponible. Reserve en línea: " ⊕ env.booking_url ⊕ " o llame al "
            ⊕ env.office_phone)
      else (if channel == "whatsapp"
          then "*Free Consultation Available* ✅\n\nBook your appointment online here:\n"
            ⊕ env.booking_url ⊕ "\n\nOr call us directly: " ⊕ env.office_phone
            ⊕ "\n\nHours: Monday–Friday, 9am–5pm"
          else "Free consultation available. Book online: " ⊕ env.booking_url ⊕ " or call "
            ⊕ env.office_phone)

  unfoldable pub emergency_reply : String → String
  emergency_reply language =
      if language == "es"
      then "🚨 Si usted o alguien que conoce está detenido o enfrenta deportación inmediata, llame a nuestra línea de emergencias AHORA: "
        ⊕ env.office_phone ⊕ "\n\nEstamos disponibles para situaciones de emergencia."
      else "🚨 If you or someone you know is detained or facing immediate deportation, please call our emergency line NOW: "
        ⊕ env.office_phone ⊕ "\n\nWe handle emergency immigration situations."

  unfoldable pub fallback_reply : String → String
  fallback_reply language =
      if language == "es"
      then "Gracias por escribirnos. Para asistencia inmediata llame al " ⊕ env.office_phone ⊕ "."
      else "Thank you for reaching out. For immediate assistance please call " ⊕ env.office_phone
        ⊕ "."

  -- the reply of `_gpt_reply`
  abbrev pub model_reply : String → Option String → String
  model_reply language none = fallback_reply language
  model_reply language (some t) = t

  abbrev pub booking_keywords : String → List String
  booking_keywords language = if language == "es" then booking_keywords_es else booking_keywords_en

  unfoldable pub route_message :
      (String → String) → String → String → Option String → String → String × String
  unfolding is_spanish contains emergency_reply build_booking_message fallback_reply
  route_message lower ctx_language channel answer body =
      let language = if is_spanish (lower body) then "es" else ctx_language in
      if any (contains (lower body)) emergency_keywords
      then (emergency_reply language, language)
      else if any (contains (lower body)) (booking_keywords language)
      then (build_booking_message language channel, language)
      else (model_reply language answer, language)

abbrev pub sms_cut : String → String
sms_cut clean =
    if ltb 160 (count clean) then cut_text 140 clean ⊕ "... (cont'd in next msg)" else clean

unfoldable pub format_reply : (String → String) → String → String → String
unfolding get_or get cut_text
format_reply strip_markdown reply channel =
    if channel == "sms"
    then sms_cut (strip_markdown reply)
    else if channel == "whatsapp"
    then cut_text 4096 reply
    else if is_in channel ("messenger" ∷ "instagram" ∷ [])
    then cut_text (get_or channel_limits channel 2000) (strip_markdown reply)
    else reply
