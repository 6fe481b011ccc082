-- ===== src/IntakeFlow.antt =====
-- app/agent/intake_flow.py: which intake question is asked next, and the hint for the language model.
pub mod Order
pub mod Interview
mod Tests
use ai_receptionist_for_immi.Prelude.{
  String, Bool, true, false, not, Option, none, some, List, [], ◌∷◌, ◌==◌, if◌then◌else◌, ◌⊕◌,
  contains, any,
}
use ai_receptionist_for_immi.Dict.{get}
use ai_receptionist_for_immi.Value.{has, Value}
use ai_receptionist_for_immi.Conversation.{intake_complete, CallState, low, medium, high, emergency}

pub record IntakeQuestion : Type 0 where
  pub field : String
  pub prompt_en : String
  pub prompt_es : String
  pub condition : Option (CallState → Bool)

unfoldable pub urgency_medium_plus : CallState → Bool
urgency_medium_plus s = elim s.urgency_label [
  | low ↦ false
  | medium ↦ true
  | high ↦ true
  | emergency ↦ true
]

unfoldable pub urgency_high_plus : CallState → Bool
urgency_high_plus s = elim s.urgency_label [
  | low ↦ false
  | medium ↦ false
  | high ↦ true
  | emergency ↦ true
]

-- `str_lower v` is `str(v).lower()`
module _ (str_lower : Value → String) where
  unfoldable pub case_employment : CallState → Bool
  unfolding get contains
  case_employment s =
      let ct : String = elim (get s.intake "case_type") [ none ↦ "" | some v ↦ str_lower v ] in
      any (contains ct) ("employment" ∷ "work" ∷ "h1b" ∷ "l1" ∷ "eb" ∷ "perm" ∷ [])

  abbrev pub intake_questions : List IntakeQuestion
  intake_questions =
      record {
        field = "full_name";
        prompt_en = "May I have your full legal name, please?";
        prompt_es = "¿Me puede dar su nombre completo, por favor?";
        condition = none;
      }
      ∷ record {
        field = "date_of_birth";
        prompt_en = "And your date of birth?";
        prompt_es = "¿Y su fecha de nacimiento?";
        condition = none;
      }
      ∷ record {
        field = "country_of_birth";
        prompt_en = "What country were you born in?";
        prompt_es = "¿En qué país nació?";
        condition = none;
      }
      ∷ record {
        field = "nationality";
        prompt_en = "What is your current nationality or citizenship?";
        prompt_es = "¿Cuál es su nacionalidad o ciudadanía actual?";
        condition = none;
      }
      ∷ record {
        field = "current_immigration_status";
        prompt_en = "What is your current immigration status in the United States?";
        prompt_es = "¿Cuál es su estatus migratorio actual en los Estados Unidos?";
        condition = none;
      }
      ∷ record {
        field = "case_type";
        prompt_en =
            "Can you briefly describe what type of immigration help you need — for example, green card, work visa, asylum, citizenship, or something else?";
        prompt_es =
            "¿Puede describirme brevemente qué tipo de ayuda migratoria necesita? Por ejemplo, tarjeta verde, visa de trabajo, asilo, ciudadanía u otro.";
        condition = none;
      }
      ∷ record {
        field = "entry_date_us";
        prompt_en = "When did you first enter the United States?";
        prompt_es = "¿Cuándo ingresó por primera vez a los Estados Unidos?";
        condition = none;
      }
      ∷ record {
        field = "employer_sponsor";
        prompt_en = "Is an employer sponsoring your visa or green card application?";
        prompt_es = "¿Un empleador está patrocinando su visa o solicitud de tarjeta verde?";
        condition = some case_employment;
      }
      ∷ record {
        field = "prior_applications";
        prompt_en =
            "Have you previously filed any immigration applications, petitions, or cases with USCIS or an immigration court?";
        prompt_es =
            "¿Ha presentado anteriormente alguna solicitud, petición o caso de inmigración ante USCIS o un tribunal de inmigración?";
        condition = none;
      }
      ∷ record {
        field = "prior_deportation";
        prompt_en = "Have you ever been detained, deported, or received an order of removal?";
        prompt_es = "¿Alguna vez ha sido detenido, deportado o recibido una orden de deportación?";
        condition = some urgency_medium_plus;
      }
      ∷ record {
        field = "criminal_history";
        prompt_en =
            "Have you ever been arrested or convicted of any crime? (This is a strict legal question — it does not affect your right to call us.)";
        prompt_es =
            "¿Alguna vez ha sido arrestado o condenado por algún delito? (Es una pregunta legal estricta — no afecta su derecho a llamarnos.)";
        condition = some urgency_high_plus;
      }
      ∷ record {
        field = "has_attorney";
        prompt_en =
            "Are you currently working with any other immigration attorney or representative?";
        prompt_es =
            "¿Actualmente está trabajando con algún otro abogado o representante de inmigración?";
        condition = none;
      }
      ∷ record {
        field = "family_in_us";
        prompt_en =
            "Do you have any immediate family members who are US citizens or lawful permanent residents?";
        prompt_es =
            "¿Tiene algún familiar directo que sea ciudadano estadounidense o residente permanente legal?";
        condition = none;
      }
      ∷ record {
        field = "email";
        prompt_en = "What is the best email address to send you information and follow-ups?";
        prompt_es = "¿Cuál es el mejor correo electrónico para enviarle información y seguimiento?";
        condition = none;
      }
      ∷ record {
        field = "preferred_contact_time";
        prompt_en = "What is the best time of day to reach you if we need to follow up?";
        prompt_es = "¿Cuál es el mejor horario para contactarle si necesitamos hacer seguimiento?";
        condition = none;
      }
      ∷ []

abbrev pub condition_met : Option (CallState → Bool) → CallState → Bool
condition_met none s = true
condition_met (some test) s = test s

-- the loop of `next_question`
unfoldable pub next_from : CallState → List IntakeQuestion → Option IntakeQuestion
unfolding has
next_from s [] = none
next_from s (q ∷ qs) =
    let rest = next_from s qs in
    if has s.intake q.field
    then rest
    else if not (condition_met q.condition s)
    then rest
    else some q

abbrev pub all_asked : String
all_asked =
    "All intake questions have been asked. Summarize what was collected and transition to the consultation pitch."

-- the text for one question
ask : CallState → IntakeQuestion → String
ask s q =
    let prompt = if s.language == "es" then q.prompt_es else q.prompt_en in
    let label : String = if s.language == "es" then "ES" else "EN" in
    "[Next intake question to ask (" ⊕ label ⊕ ")]\nField: " ⊕ q.field ⊕ "\nAsk: " ⊕ prompt
    ⊕ "\nWeave this question naturally into your response — do not read it verbatim if it sounds awkward after what the caller just said."

module _ (str_lower : Value → String) where
  unfoldable pub next_question : CallState → Option IntakeQuestion
  unfolding next_from
  next_question s = next_from s (intake_questions str_lower)

  unfoldable pub build_next_question_hint : CallState → String
  unfolding ask next_question intake_complete
  build_next_question_hint s = elim (next_question s) [
    | none ↦ if not (intake_complete s) then all_asked else ""
    | some q ↦ ask s q
  ]
