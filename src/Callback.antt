-- ===== src/Callback.antt =====
-- app/telephony/outbound_callback.py: the queue of callers who wait to be called back, and the
-- status webhook of app/webhooks/twilio_webhooks.py that also writes to it. What a handler sends to
-- Redis, to Twilio and to the CRM is the list of its effects; what these answer is its environment. The CRM client is such an
-- environment too: app/crm/ghl_client.py has neither `search_contacts` nor `create_task`, so both calls raise
-- as long as it has none.
pub mod Retries
pub mod Opening
pub mod Missed
pub mod Promotion
mod Tests
use mathlib.Core.Option
use ai_receptionist_for_immi.Prelude.{
  ℕ, ◌+◌, ◌-◌, ◌*◌, ◌/◌, max, String, Bool, not, Option, none, some, List, [], ◌∷◌, leb,
  if◌then◌else◌, ◌⊕◌, nonempty, is_in, ◌+ℤ◌, leb_ℤ, ℤ, pos,
}
use ai_receptionist_for_immi.Dates.{skip_weekend, next_business_day}

-- A payload; a key that is missing is `none`, and a missing `retries` is read as 0.
pub record Item : Type 0 where
  pub caller_number : Option String
  pub caller_name : Option String
  pub ghl_contact_id : Option String
  pub language : Option String
  pub reason : Option String
  pub requested_at : Option String
  pub retries : ℤ

abbrev pub max_retries : ℕ
max_retries = 3

abbrev pub retry_delay_hours : ℕ
retry_delay_hours = 1

pub data Effect : Type 0 where
  -- `zadd("callback_delayed", {item: due_at})`, the time in minutes
  delay_until : Item → ℕ → Effect
  -- `calls.create(to=…, url=…)`
  dial : String → String → Effect
  -- `search_contacts(phone=…)`
  search_contacts : String → Effect
  -- `create_task(contact_id, title, body, due_date)`
  create_task : String → String → String → ℕ → Effect

-- What one round of the consumer meets: the answers of the office hours, the clock, Twilio (`none`
-- where the call fails) and the CRM (`none` where no contact is found).
pub record Env : Type 0 where
  pub office_open : Bool
  pub until_open : ℕ
  pub now : ℕ
  pub today : ℕ
  pub placed : Option String
  pub found_contact : Option String

abbrev pub or_text : Option String → String → String
or_text none d = d
or_text (some t) d = t

unfoldable pub requeue : Env → Item → ℕ → List Effect
requeue env item delay_minutes = delay_until item (env.now + delay_minutes) ∷ []

-- `_next_business_day_iso` again, written in place; three rounds end the loop
due_date : ℕ → ℕ
unfolding next_business_day
due_date today = elim (next_business_day 3 today) [ none ↦ today | some day ↦ day ]

task_for : Env → Item → String → List Effect
unfolding due_date
task_for env item contact =
    if nonempty contact
    then create_task contact ("Manual callback needed — " ⊕ or_text item.caller_number "Unknown")
        ("Automated callback failed after 3 attempts.\nReason: "
          ⊕ or_text item.reason "not specified"
          ⊕ "\nRequested at: "
          ⊕ or_text item.requested_at "unknown"
          ⊕ "\nLanguage: "
          ⊕ or_text item.language "en")
        (due_date env.today)
      ∷ []
    else []

unfoldable pub create_ghl_fallback_task : Env → Item → List Effect
unfolding task_for
create_ghl_fallback_task env item =
    if nonempty (or_text item.ghl_contact_id "")
    then task_for env item (or_text item.ghl_contact_id "")
    else search_contacts (or_text item.caller_number "Unknown")
      ∷ task_for env item (or_text env.found_contact "")

-- `quote` is `urllib.parse.quote_plus`
module _ (quote : String → String) (base_host : String) where
  abbrev pub callback_url : String → Item → String
  callback_url language item =
      "https://"
      ⊕ base_host
      ⊕ "/twilio/callback-connect?lang="
      ⊕ language
      ⊕ "&name="
      ⊕ quote (or_text item.caller_name "")
      ⊕ "&reason="
      ⊕ quote (or_text item.reason "callback request")
      ⊕ "&ghl_contact_id="
      ⊕ or_text item.ghl_contact_id ""

  unfoldable pub process_item : Env → Item → List Effect
  unfolding requeue create_ghl_fallback_task ◌+ℤ◌
  process_item env item =
      let number = or_text item.caller_number "" in
      if not (nonempty number)
      then []
      else if not env.office_open
      then requeue env item env.until_open
      else if leb_ℤ (pos max_retries) item.retries
      then create_ghl_fallback_task env item
      else dial number (callback_url (or_text item.language "en") item)
        ∷ (if nonempty (or_text env.placed "")
            then []
            else requeue env (record item { retries = item.retries +ℤ pos 1 })
                (retry_delay_hours * 60))

-- `_pop_item` on what `brpop` returns; `loads` is `json.loads`, `none` where it raises
unfoldable pub pop_item : (loads : String → Option Item) → Option String → Option Item
pop_item loads none = none
pop_item loads (some raw) = loads raw

-- the payload of `enqueue_callback`
unfoldable pub enqueue_callback : String → String → String → String → String → String → Item
enqueue_callback caller_number language caller_name ghl_contact_id reason requested_at = record {
  caller_number = some caller_number;
  caller_name = some caller_name;
  ghl_contact_id = some ghl_contact_id;
  language = some language;
  reason = some reason;
  requested_at = some requested_at;
  retries = pos 0;
}

-- What `call_status_callback` pushes to the same queue.
unfoldable pub status_callback_push : String → String → String → Option String
status_callback_push from_number call_sid call_status =
    if is_in call_status ("no-answer" ∷ "busy" ∷ [])
    then some (from_number ⊕ ":" ⊕ call_sid ⊕ ":" ⊕ call_status)
    else none

-- `_minutes_until_office_open` from the date and the microsecond of the day; `none` means that the
-- fuel of the loop ran out
abbrev pub office_open_tick : ℕ
office_open_tick = 9 * 3600 * 1000000

abbrev pub day_ticks : ℕ
day_ticks = 86400 * 1000000

abbrev pub first_candidate : ℕ → ℕ → ℕ
first_candidate day tick = if leb office_open_tick tick then day + 1 else day

-- `max(1, int((target - now).total_seconds() / 60))`
abbrev pub minutes_to : ℕ → ℕ → ℕ → ℕ
minutes_to day tick target =
    max 1 ((target * day_ticks + office_open_tick - (day * day_ticks + tick)) / 60000000)

unfoldable pub minutes_until_office_open : ℕ → ℕ → ℕ → Option ℕ
unfolding skip_weekend
minutes_until_office_open fuel day tick =
    Option.map (minutes_to day tick) (skip_weekend fuel (first_candidate day tick))
