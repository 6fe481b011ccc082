-- ===== src/Ghl/Methods.antt =====
-- app/crm/ghl_client.py: the methods of `GHLClient` on contacts. Each returns a value of Python:
-- `None`, a bool, a list or a dict.
use ai_receptionist_for_immi.Prelude.{
  ℕ, String, Bool, true, false, not, Option, none, List, [], ◌∷◌, ◌++◌, ◌==◌, if◌then◌else◌, ◌⊕◌,
  nonempty, is_nil, pos,
}
use ai_receptionist_for_immi.Dict.{Dict, put, get_or}
use ai_receptionist_for_immi.Value.{truthy, Value, null, boolean, integer, text, array, object, nil}
use ai_receptionist_for_immi.Worker.{or_value, field_of, only_if, cut}
use ai_receptionist_for_immi.Worker.Rows.{object_of}
use ai_receptionist_for_immi.Ghl.Answers.{items_of, of_items, dict_in, unwrapped, first_of, Setup}
use ai_receptionist_for_immi.Ghl.{
  Action, pure, given, guarded, ◌>>=◌, Server, creds_available, send, gets, posts, puts, type_error,
}

module _ (setup : Setup) (server : Server) where
  abbrev pub located : Dict Value
  located = ("locationId", text setup.location_id) ∷ []

  -- `(data.get("contacts") or [])[:limit]`
  abbrev pub first_contacts : ℕ → Dict Value → Action Value
  first_contacts limit d =
      given type_error (cut limit (or_value (field_of d "contacts") (array nil)))

  abbrev pub found_in : ℕ → Value → Action Value
  found_in limit answer = do d ← dict_in answer; first_contacts limit d

  unfoldable pub search_found : String → ℕ → Action Value
  unfolding send cut truthy
  search_found query limit = guarded (array nil) (
      send server gets "/contacts/"
        (located ++ ("query", text query) ∷ ("limit", integer (pos limit)) ∷ [])
      >>= found_in limit)

  unfoldable pub search_contacts_by_query : String → ℕ → Action Value
  unfolding creds_available search_found
  search_contacts_by_query query limit = do
    available ← creds_available
    if not available then pure (array nil) else search_found query limit

  -- `data.get("contacts", [])`, and one search
  abbrev pub contacts_in : Value → Action Value
  contacts_in answer = do d ← dict_in answer; pure (get_or d "contacts" (array nil))

  unfoldable pub contacts_of : String → Action Value
  unfolding send
  contacts_of query =
      send server gets "/contacts/" (located ++ ("query", text query) ∷ []) >>= contacts_in

  -- what the second search makes of its contacts, and what follows the first one
  unfoldable pub second_found : Value → Action Value
  unfolding truthy
  second_found again = if truthy again then given type_error (first_of again) else pure null

  unfoldable pub first_found : String → Value → Action Value
  unfolding contacts_of second_found truthy
  first_found phone found =
      if truthy found
      then given type_error (first_of found)
      else if setup.bare_phone phone == phone
      then pure null
      else contacts_of (setup.bare_phone phone) >>= second_found

  unfoldable pub search_contact_by_phone : String → Action Value
  unfolding contacts_of first_found
  search_contact_by_phone phone = guarded null (contacts_of phone >>= first_found phone)

  unfoldable pub get_contact : String → Action Value
  unfolding send truthy
  get_contact contact_id =
      guarded null (send server gets ("/contacts/" ⊕ contact_id) [] >>= unwrapped "contact")

  -- the payload of `create_contact`; the language is set in the dict of the custom fields
  unfoldable pub contact_payload :
      String → String → String → String → List Value → Dict Value → String → Dict Value
  unfolding put
  contact_payload phone first_name last_name email tags custom_fields language =
      located
      ++ ("phone", text phone)
        ∷ ("firstName", text first_name)
        ∷ ("lastName", text last_name)
        ∷ only_if (nonempty email) "email" (text email)
      ++ only_if (not (is_nil tags)) "tags" (array (of_items tags))
      ++ only_if (nonempty language) "customField"
          (object (object_of (put custom_fields "preferred_language" (text language))))

  unfoldable pub create_contact :
      String → String → String → String → List Value → Dict Value → String → Action Value
  unfolding send contact_payload truthy
  create_contact phone first_name last_name email tags custom_fields language = guarded null (
      send server posts "/contacts/"
        (contact_payload phone first_name last_name email tags custom_fields language)
      >>= unwrapped "contact")

  unfoldable pub update_contact : String → Dict Value → Action Value
  unfolding send truthy
  update_contact contact_id updates =
      guarded null (send server puts ("/contacts/" ⊕ contact_id) updates >>= unwrapped "contact")

  -- `list(set(existing + tags))`, where the old tags are a list
  abbrev pub merged_tags : Value → List Value → Option (List Value)
  merged_tags (array old) tags = setup.distinct (items_of old ++ tags)
  merged_tags _ tags = none

  abbrev pub is_none : Value → Bool
  is_none null = true
  is_none _ = false

  -- what `add_tags` does with the merged tags, and with the contact
  unfoldable pub send_tags : String → List Value → Action Value
  unfolding update_contact
  send_tags contact_id merged = do
    answer ← update_contact contact_id (("tags", array (of_items merged)) ∷ [])
    pure (boolean (not (is_none answer)))

  abbrev pub retag : String → List Value → Dict Value → Action Value
  retag contact_id tags d =
      given type_error (merged_tags (or_value (field_of d "tags") (array nil)) tags)
      >>= send_tags contact_id

  unfoldable pub tag_contact : String → List Value → Value → Action Value
  unfolding send_tags truthy
  tag_contact contact_id tags contact =
      if not (truthy contact)
      then pure (boolean false)
      else dict_in contact >>= retag contact_id tags

  unfoldable pub add_tags : String → List Value → Action Value
  unfolding get_contact tag_contact
  add_tags contact_id tags = get_contact contact_id >>= tag_contact contact_id tags

  unfoldable pub add_note : String → String → Action Value
  unfolding send
  add_note contact_id body =
      guarded null
        (send server posts ("/contacts/" ⊕ contact_id ⊕ "/notes") (("body", text body) ∷ []))
