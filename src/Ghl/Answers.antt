-- ===== src/Ghl/Answers.antt =====
-- app/crm/ghl_client.py: the settings of the client, and how its methods read an answer.
use ai_receptionist_for_immi.Prelude.{ℕ, String, Option, none, some, List, [], ◌∷◌}
use ai_receptionist_for_immi.Dict.{Dict}
use ai_receptionist_for_immi.Value.{Value, text, array, object, Items, nil, cons}
use ai_receptionist_for_immi.Worker.{or_value, field_of, fields_of}
use ai_receptionist_for_immi.Ghl.{Action, pure, throw, ◌>>=◌, attribute_error}

-- the settings, and what the client uses of Python's library
pub record Setup : Type 0 where
  pub location_id : String
  pub calendar_id : String
  pub office_timezone : String
  pub twilio_phone_number : String
  -- `phone.lstrip("+").replace(" ", "").replace("-", "")`
  pub bare_phone : String → String
  -- midnight and the last second of a date in milliseconds, or a ValueError
  pub day_start : String → Option ℕ
  pub day_end : String → Option ℕ
  -- the start and the end of a slot by its start, where that can be read
  pub slot_times : String → Option (String × String)
  -- `list(set(values))`, or a TypeError
  pub distinct : List Value → Option (List Value)
  pub show_value : Value → String

abbrev pub items_of : Items → List Value
items_of nil = []
items_of (cons v vs) = v ∷ items_of vs

abbrev pub of_items : List Value → Items
of_items [] = nil
of_items (v ∷ vs) = cons v (of_items vs)

-- a value that `.get` is called on
abbrev pub dict_in : Value → Action (Dict Value)
dict_in (object fs) = pure (fields_of fs)
dict_in _ = throw attribute_error

-- `data.get(key) or data`
abbrev pub unwrapped : String → Value → Action Value
unwrapped key data_value = do d ← dict_in data_value; pure (or_value (field_of d key) data_value)

-- `data.get("event") or data.get("appointment") or data`
abbrev pub event_in : Value → Action Value
event_in data_value = do
  d ← dict_in data_value
  pure (or_value (field_of d "event") (or_value (field_of d "appointment") data_value))

-- `values[0]` of a truthy value
abbrev pub first_of : Value → Option Value
first_of (array (cons v _)) = some v
first_of (text (String.◌∷◌ c _)) = some (text (String.◌∷◌ c ""))
first_of _ = none

-- the elements that a `for` loop takes from a value, or a TypeError
abbrev chars_of : String → List Value
chars_of String.[] = []
chars_of (String.◌∷◌ c t) = text (String.◌∷◌ c "") ∷ chars_of t

abbrev pub keys_in : Dict Value → List Value
keys_in [] = []
keys_in ((k, v) ∷ d) = text k ∷ keys_in d

abbrev pub iterated : Value → Option (List Value)
iterated (array vs) = some (items_of vs)
iterated (object fs) = some (keys_in (fields_of fs))
iterated (text t) = some (chars_of t)
iterated _ = none
