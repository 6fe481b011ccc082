-- ===== src/Crm.antt =====
-- app/crm/contact_manager.py: who is calling, and what a call leaves in the CRM and for the database
-- worker. The answers of the CRM and of Redis are arguments.
pub mod Sync
pub mod Call
pub mod Lookups
pub mod Consent
pub mod Handover
mod Tests
use Prim.Native.Char.{Char, code}
use Prim.Native.String
use ai_receptionist_for_immi.Prelude.{
  ℕ, ◌+◌, ◌*◌, String, count, Bool, false, not, ◌&&◌, ◌||◌, Option, none, some, [], ◌∷◌, ◌==◌, ltb,
  eqb, if◌then◌else◌, ◌⊕◌, nonempty, ℤ,
}
use ai_receptionist_for_immi.Dict.{Dict, get, get_or}
use ai_receptionist_for_immi.Value.{
  truthy, Value, null, boolean, integer, text, array, object, end, field,
}
use ai_receptionist_for_immi.Worker.{or_value, field_of, fields_of}

-- What Python makes of texts and values.
pub record Texts : Type 0 where
  pub is_digit : Char → Bool
  pub lower : String → String
  pub upper : String → String
  pub strip : String → String
  -- `str` of a value and of an integer
  pub str : Value → String
  pub show : ℤ → String
  -- `re.sub(r"[^a-z0-9-]", "-", text)`
  pub safe_tag : String → String
  -- `split(None, 1)` of a name: the first part, and the rest where there is one
  pub split_name : String → String × Option String
  pub dumps : Value → String
  pub loads : String → Option Value

-- Redis by its keys; only the cache of contacts is read
abbrev pub Cache : Type 0
Cache = String → Option (String × ℕ)

-- what Redis holds at this second
abbrev pub live : ℕ → Option (String × ℕ) → Option String
live now none = none
live now (some (entry, expires)) = if ltb now expires then some entry else none

abbrev pub phone_cache_ttl : ℕ
phone_cache_ttl = 24 * 3600

abbrev pub starts_with_char : ℕ → String → Bool
starts_with_char n String.[] = false
starts_with_char n (String.◌∷◌ c t) = eqb (code c) n

-- `first or second`, as a caller reads a field of the CRM under two names
abbrev pub either_field : Dict Value → String → String → Value
either_field contact k j = or_value (field_of contact k) (get_or contact j (text ""))

module _ (env : Texts) where
  -- `re.sub(r"[^\d+]", "", phone)`
  unfoldable pub digits_of : String → String
  digits_of String.[] = ""
  digits_of (String.◌∷◌ c t) =
      let rest = digits_of t in
      if eqb (code c) b'+' || env.is_digit c then String.◌∷◌ c rest else rest

  unfoldable pub normalise_phone : String → String
  unfolding digits_of
  normalise_phone phone =
      let digits = digits_of phone in
      if nonempty digits && not (starts_with_char b'+' digits)
      then (if eqb (count digits) 10
          then "+1" ⊕ digits
          else if eqb (count digits) 11 && starts_with_char b'1' digits
          then "+" ⊕ digits
          else digits)
      else digits

  abbrev pub cache_key : String → String
  cache_key phone = "ghl:phone:" ⊕ normalise_phone phone

  -- the name and the id in the cache; `none` where there is no entry that can be read
  abbrev pub entry_in : Value → Option (Value × Value)
  entry_in (object fs) = some (field_of (fields_of fs) "name", field_of (fields_of fs) "contact_id")
  entry_in null = none
  entry_in (boolean b) = none
  entry_in (integer n) = none
  entry_in (text t) = none
  entry_in (array xs) = none

  abbrev pub cached_entry : Option String → Option (Value × Value)
  cached_entry none = none
  cached_entry (some t) =
      if nonempty t then elim (env.loads t) [ none ↦ none | some v ↦ entry_in v ] else none

  -- the name of a contact; a text without words is None
  abbrev pub contact_name : Dict Value → Value
  contact_name contact =
      let name = env.strip (
        env.str (either_field contact "firstName" "first_name")
        ⊕ " "
        ⊕ env.str (either_field contact "lastName" "last_name")) in
      if nonempty name then text name else null

  abbrev pub entry_of_contact : Dict Value → Value × Value
  entry_of_contact contact = (contact_name contact, either_field contact "id" "contact_id")

  abbrev pub stored_entry : Value × Value → Value
  stored_entry (name, id) = object (field "name" name (field "contact_id" id end))

  -- `setex` at the second `now`, unless it raises
  unfoldable pub store : Bool → ℕ → String → String → Cache → Cache
  store ok now key entry cache =
      if ok then (λ k. if k == key then some (entry, now + phone_cache_ttl) else cache k) else cache

  -- the search in the CRM: `none` is an exception, `some none` no contact
  unfoldable pub found_contact :
      Bool → ℕ → String → Option (Option (Dict Value)) → Cache → (Value × Value) × Cache
  unfolding get_or get truthy store
  found_contact ok now phone none cache = ((null, null), cache)
  found_contact ok now phone (some none) cache = ((null, null), cache)
  found_contact ok now phone (some (some [])) cache = ((null, null), cache)
  found_contact ok now phone (some (some (f ∷ contact))) cache = (
    entry_of_contact (f ∷ contact),
    store ok now (cache_key phone) (env.dumps (stored_entry (entry_of_contact (f ∷ contact))))
        cache,
  )

  -- the name and the id of the caller, and the cache behind the lookup
  unfoldable pub lookup_caller :
      Bool → ℕ → String → Option (Option (Dict Value)) → Cache → (Value × Value) × Cache
  unfolding get_or get fields_of normalise_phone found_contact
  lookup_caller ok now phone answer cache =
      elim (cached_entry (live now (cache (cache_key phone)))) [
        | some entry ↦ (entry, cache)
        | none ↦ found_contact ok now phone answer cache
      ]
