-- ===== src/CallRouter.antt =====
-- app/telephony/call_router.py: the office hours and the routing of an inbound call.
pub mod Hours
pub mod Routes
mod Tests
use ai_receptionist_for_immi.Prelude.{
  ℕ, ◌+◌, ◌*◌, String, Bool, true, false, not, ◌&&◌, Option, none, some, List, [], ◌∷◌, ◌==◌, ltb,
  leb, if◌then◌else◌, ◌⊕◌, is_in, ℤ, pos, negsuc,
}

-- A local time: the day of the week (Monday is 0), `strftime("%m-%d")`, and the microsecond of the day.
pub record Moment : Type 0 where
  pub weekday : ℕ
  pub month_day : String
  pub tick : ℕ

abbrev pub us_federal_holidays_mmdd : List String
us_federal_holidays_mmdd = "01-01" ∷ "07-04" ∷ "11-11" ∷ "12-25" ∷ []

-- the microsecond of the day at which a minute begins
abbrev pub tick_at : ℕ → ℕ → ℕ
tick_at hour minute = (hour * 60 + minute) * 60000000

-- `now.replace(hour=h, minute=m, second=0, microsecond=0)`; `none` is its `ValueError`
unfoldable pub replace_time : ℤ × ℤ → Option ℕ
replace_time (pos h, pos m) = if ltb h 24 && ltb m 60 then some (tick_at h m) else none
replace_time (pos h, negsuc m) = none
replace_time (negsuc h, m) = none

-- `open_time <= now < close_time`
pub between : Option ℕ → Option ℕ → ℕ → Option Bool
between none close tick = none
between (some start) none tick = none
between (some start) (some stop) tick = some (leb start tick && ltb tick stop)

-- `read_hm` is `map(int, text.split(":"))` unpacked into two, `none` where that is a `ValueError`.
-- The result `none` is the `ValueError` of `replace`, which is not caught.
module _ (read_hm : String → Option (ℤ × ℤ)) where
  pub in_window : String → String → ℕ → Option Bool
  unfolding replace_time between
  in_window hours_start hours_end tick = elim (read_hm hours_start) [
    | none ↦ some true
    | some s ↦ elim (read_hm hours_end) [
      | none ↦ some true
      | some e ↦ between (replace_time s) (replace_time e) tick
    ]
  ]

  unfoldable pub is_office_open : String → String → Moment → Option Bool
  unfolding in_window
  is_office_open hours_start hours_end now =
      if leb 5 now.weekday
      then some false
      else if is_in now.month_day us_federal_holidays_mmdd
      then some false
      else in_window hours_start hours_end now.tick

abbrev pub xml_head : String
xml_head = "<?xml version=\"1.0\" encoding=\"UTF-8\"?>"

unfoldable pub twiml_ai_agent : String → String → String → String → String
twiml_ai_agent base_url call_sid from_number to_number =
    xml_head ⊕ "<Response><Connect><Stream url=\"wss://" ⊕ base_url
    ⊕ "/ws/call\"><Parameter name=\"CallSid\" value=\"" ⊕ call_sid
    ⊕ "\"/><Parameter name=\"From\" value=\"" ⊕ from_number ⊕ "\"/><Parameter name=\"To\" value=\""
    ⊕ to_number ⊕ "\"/></Stream></Connect></Response>"

unfoldable pub voicemail_twiml : String → String → String
voicemail_twiml base_host message =
    let record_action = "https://" ⊕ base_host ⊕ "/twilio/voicemail" in
    xml_head ⊕ "<Response><Say voice=\"Polly.Joanna\" language=\"en-US\">" ⊕ message
    ⊕ "</Say><Record action=\"" ⊕ record_action
    ⊕ "\" maxLength=\"120\" transcribe=\"true\" transcribeCallback=\"" ⊕ record_action
    ⊕ "/transcription\"/><Say>We did not receive a recording. Goodbye.</Say></Response>"

abbrev pub after_hours_message : String → String
after_hours_message language =
    if language == "es"
    then "Gracias por llamar. Nuestro horario de atención es de lunes a viernes de nueve de la mañana a diez de la noche. Por favor deje su nombre, número y una descripción breve de su situación migratoria después del tono y nos comunicaremos con usted el siguiente día hábil."
    else "Thank you for calling. Our office hours are Monday through Friday, nine AM to ten PM. Please leave your name, phone number, and a brief description of your immigration matter after the tone and we will return your call the next business day."

abbrev pub at_capacity_message : String → String
at_capacity_message language =
    if language == "es"
    then "Gracias por llamar. En este momento todos nuestros representantes están atendiendo otras llamadas. Por favor deje su mensaje después del tono y le devolveremos la llamada lo antes posible, generalmente dentro de dos horas."
    else "Thank you for calling. Our representatives are currently assisting other callers. Please leave a message after the tone and we will return your call as soon as possible, typically within two hours."

unfoldable pub twiml_after_hours : String → String → String
unfolding voicemail_twiml
twiml_after_hours base_host language = voicemail_twiml base_host (after_hours_message language)

unfoldable pub twiml_at_capacity : String → String → String
unfolding voicemail_twiml
twiml_at_capacity base_host language = voicemail_twiml base_host (at_capacity_message language)

-- the settings that the router reads
pub record Settings : Type 0 where
  pub office_hours_start : String
  pub office_hours_end : String
  pub base_host : String

pub record InboundCall : Type 0 where
  pub call_sid : String
  pub from_number : String
  pub to_number : String
  pub language : String

unfoldable pub route_inbound_call :
    (read_hm : String → Option (ℤ × ℤ)) → Settings → InboundCall → Bool → Moment → Option String
unfolding is_office_open twiml_after_hours twiml_at_capacity twiml_ai_agent
route_inbound_call read_hm cfg c accepting now =
    elim (is_office_open read_hm cfg.office_hours_start cfg.office_hours_end now) [
      | none ↦ none
      | some is_open ↦ some (
          if not is_open
          then twiml_after_hours cfg.base_host c.language
          else if not accepting
          then twiml_at_capacity cfg.base_host c.language
          else twiml_ai_agent cfg.base_host c.call_sid c.from_number c.to_number)
    ]
