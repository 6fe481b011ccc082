-- ===== src/Worker.antt =====
-- app/logging_analytics/db_worker.py: the worker that drains the queues of Redis into the database.
-- Here are the services that it calls and what the handlers share. A handler that raises is one whose
-- result says so.
pub mod Readings
pub mod Sync
pub mod Rows
pub mod Sms
pub mod Queues
pub mod Columns
pub mod Merging
pub mod Kept
pub mod Drained
mod Tests
use Prim.Native.String
use ai_receptionist_for_immi.Prelude.{
  ℕ, zero, suc, String, Bool, true, false, not, Option, none, some, List, [], ◌∷◌, if◌then◌else◌,
  ◌⊕◌, nonempty, is_in, ℤ,
}
use ai_receptionist_for_immi.Dict.{Dict, get_or}
use ai_receptionist_for_immi.Value.{
  truthy, Value, null, boolean, integer, text, array, object, Items, nil, cons, Fields, end, field,
}

-- What is asked of the services, in the order of the calls.
pub data Effect : Type 0 where
  upsert : String → Dict Value → Effect
  insert : String → Dict Value → Effect
  -- `update(row).eq("call_sid", call_sid)`
  update : String → Dict Value → Value → Effect
  -- the same, only where `caller_name` is null
  fill_name : Dict Value → Value → Effect
  send_sms : Value → Value → Effect
  -- `rpush("dlq:" + queue, raw)`
  dead_letter : String → String → Effect

pub record Services : Type 0 where
  -- whether a request is carried out without an exception
  pub accepts : Effect → Bool
  -- `json.loads`; `none` is a `JSONDecodeError`
  pub loads : String → Option Value
  pub now : String
  -- `datetime.fromtimestamp(ms / 1000).isoformat()`, and the time so many seconds ago
  pub iso_of_ms : Value → Option String
  pub iso_before : Value → Option String
  -- the hash `call:{call_sid}` in Redis; `none` is a Redis that raises
  pub call_hash : Value → Option (Dict String)
  -- `int` of a text, and `str` of a value
  pub read_int : String → Option ℤ
  pub str : Value → String
  pub lower : String → String
  pub strip : String → String
  -- the regular expressions of `_safe_date` and `_safe_email`
  pub is_iso_date : String → Bool
  pub other_date : String → Option (ℕ × ℕ × String)
  pub two_digits : ℕ → String
  pub is_email : String → Bool
  -- what the CRM answers: `none` is an exception, `some none` is nothing found
  pub find_contact : Value → Option (Option (Dict Value))
  pub find_appointment : Value → Option (Option (Dict Value))
  pub law_firm_name : String
  pub booking_url : String

-- The requests that a handler makes, and whether it raises in the end.
pub record Handled : Type 0 where
  pub requests : List Effect
  pub raised : Bool

abbrev pub failed : Handled
failed = record { requests = []; raised = true }

abbrev pub done : List Effect → Handled
done es = record { requests = es; raised = false }

-- a request whose exception is raised again, and one whose exception is only logged
abbrev pub strict : Services → Effect → Handled
strict env e = record { requests = e ∷ []; raised = not (env.accepts e) }

abbrev pub lenient : Effect → Handled
lenient e = done (e ∷ [])

-- `a or b`
abbrev pub or_value : Value → Value → Value
or_value a b = if truthy a then a else b

-- `d.get(k)`
abbrev pub field_of : Dict Value → String → Value
field_of d k = get_or d k null

-- a field that is written only under a condition
abbrev pub only_if : Bool → String → Value → Dict Value
only_if true k v = (k, v) ∷ []
only_if false k v = []

abbrev pub is_null : Value → Bool
is_null null = true
is_null (boolean b) = false
is_null (integer n) = false
is_null (text t) = false
is_null (array xs) = false
is_null (object fs) = false

-- `{k: v for k, v in row.items() if v is not None}`
unfoldable pub drop_nulls : Dict Value → Dict Value
drop_nulls [] = []
drop_nulls ((k, v) ∷ d) = let rest = drop_nulls d in if is_null v then rest else (k, v) ∷ rest

-- a JSON object as a dict
unfoldable pub fields_of : Fields → Dict Value
fields_of end = []
fields_of (field k v fs) = (k, v) ∷ fields_of fs

-- `t[:n]` of a text
unfoldable pub cut_text : ℕ → String → String
cut_text zero t = ""
cut_text (suc n) String.[] = ""
cut_text (suc n) (String.◌∷◌ c t) = String.◌∷◌ c (cut_text n t)

unfoldable pub cut_items : ℕ → Items → Items
cut_items zero xs = nil
cut_items (suc n) nil = nil
cut_items (suc n) (cons x xs) = cons x (cut_items n xs)

-- `v[:n]`, which only texts and arrays have
unfoldable pub cut : ℕ → Value → Option Value
unfolding cut_text cut_items
cut n (text t) = some (text (cut_text n t))
cut n (array xs) = some (array (cut_items n xs))
cut n null = none
cut n (boolean b) = none
cut n (integer i) = none
cut n (object fs) = none

module _ (env : Services) where
  -- the words of a truth value that is kept as a text
  abbrev pub word_bool : String → Value
  word_bool s =
      if is_in s ("yes" ∷ "true" ∷ "1" ∷ [])
      then boolean true
      else if is_in s ("no" ∷ "false" ∷ "0" ∷ [])
      then boolean false
      else null

  unfoldable pub bool_str : Value → Value
  bool_str null = null
  bool_str (boolean b) = boolean b
  bool_str (integer n) = word_bool (env.strip (env.lower (env.str (integer n))))
  bool_str (text t) = word_bool (env.strip (env.lower (env.str (text t))))
  bool_str (array xs) = word_bool (env.strip (env.lower (env.str (array xs))))
  bool_str (object fs) = word_bool (env.strip (env.lower (env.str (object fs))))

  -- the first number of another date is written as its month
  abbrev pub swapped_date : Option (ℕ × ℕ × String) → Value
  swapped_date none = null
  swapped_date (some (first, second, year)) =
      text (year ⊕ "-" ⊕ env.two_digits first ⊕ "-" ⊕ env.two_digits second)

  unfoldable pub safe_date : Value → Value
  safe_date (text t) =
      if not (nonempty t)
      then null
      else if env.is_iso_date (env.strip t)
      then text (env.strip t)
      else swapped_date (env.other_date (env.strip t))
  safe_date null = null
  safe_date (boolean b) = null
  safe_date (integer n) = null
  safe_date (array xs) = null
  safe_date (object fs) = null

  unfoldable pub safe_email : Value → Value
  safe_email (text t) =
      if not (nonempty t)
      then null
      else if env.is_email (env.strip t)
      then text (env.strip t)
      else null
  safe_email null = null
  safe_email (boolean b) = null
  safe_email (integer n) = null
  safe_email (array xs) = null
  safe_email (object fs) = null

  -- `created_at` from a time stamp in milliseconds, or the present
  unfoldable pub stamp_of : Value → Option Value
  stamp_of ts =
      if truthy ts
      then elim (env.iso_of_ms ts) [ none ↦ none | some t ↦ some (text t) ]
      else some (text env.now)
