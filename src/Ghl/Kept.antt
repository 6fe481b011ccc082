-- ===== src/Ghl/Kept.antt =====
-- app/crm/ghl_client.py: what `_creds_available` and `_get`, `_post` and `_put` keep, every method of
-- the client keeps.
use ai_receptionist_for_immi.Prelude.{
  ℕ, ◌+◌, String, Bool, true, false, not, Option, none, some, List, [], ◌∷◌, ◌++◌, ◌==◌,
  if◌then◌else◌, ◌⊕◌, nonempty, pos,
}
use ai_receptionist_for_immi.Dict.{Dict, get_or}
use ai_receptionist_for_immi.Worker.{or_value, field_of, fields_of, cut}
use ai_receptionist_for_immi.Value.{truthy, Value, null, boolean, integer, text, array, object, nil}
use ai_receptionist_for_immi.Ghl.Answers.{
  of_items, dict_in, unwrapped, event_in, first_of, iterated, Setup,
}
use ai_receptionist_for_immi.Ghl.Methods.{
  located, first_contacts, found_in, search_found, search_contacts_by_query, contacts_in,
  contacts_of, second_found, first_found, search_contact_by_phone, get_contact, contact_payload,
  create_contact, update_contact, merged_tags, is_none, send_tags, retag, tag_contact, add_tags,
  add_note,
}
use ai_receptionist_for_immi.Ghl.Appointments.{
  slots_in, slots_of, fetch_slots, get_available_slots, appointment_payload, create_appointment,
  update_appointment_status, event_or_none, get_appointment, opportunity_payload,
  create_opportunity, sms_payload, send_sms,
}
use ai_receptionist_for_immi.Ghl.{
  Action, pure, given, and_then, ◌>>=◌, Server, creds_available, send, Client, Method, gets, posts,
  puts, Error, type_error, value_error, Result, returned, raised,
}
use ai_receptionist_for_immi.Ghl.Calls.{
  perform, perform_all, Call, waits, searches, finds_phone, reads_contact, creates, updates, tags,
  notes, lists_slots, books, sets_status, reads_appointment, opens, texts,
}

abbrev pub Keeps : {A : Type 0} → (Client → Type 0) → Action A → Type 0
Keeps P m = (c : Client) → P c → P (m c).1

module _ (P : Client → Type 0) {A B : Type 0} where
  and_then-Keeps :
      (r : Result A) (f : A → Action B) → ((a : A) → Keeps P (f a)) → Keeps P (and_then r f)
  and_then-Keeps (returned a) f h = h a
  and_then-Keeps (raised e) f h = λ c p. p

  pub bind-Keeps :
      (m : Action A) (f : A → Action B) → Keeps P m → ((a : A) → Keeps P (f a)) → Keeps P (m >>= f)
  bind-Keeps m f k h = λ c p. and_then-Keeps (m c).0 f h (m c).1 (k c p)

  given-Keeps :
      (e : Error) (o : Option A) (f : A → Action B)
      → ((a : A) → Keeps P (f a))
      → Keeps P (given e o >>= f)
  given-Keeps e none f h = λ c p. p
  given-Keeps e (some a) f h = h a

module _ (P : Client → Type 0) where
  pub if-Keeps :
      {A : Type 0} (b : Bool) (m n : Action A)
      → Keeps P m
      → Keeps P n
      → Keeps P (if b then m else n)
  if-Keeps true m n k l = k
  if-Keeps false m n k l = l

  pure-Keeps : {A : Type 0} (a : A) → Keeps P (pure a)
  pure-Keeps a c p = p

  given_last-Keeps : {A : Type 0} (e : Error) (o : Option A) → Keeps P (given e o)
  given_last-Keeps e none = λ c p. p
  given_last-Keeps e (some a) = λ c p. p

  dict_in-Keeps : (v : Value) → Keeps P (dict_in v)
  dict_in-Keeps null c p = p
  dict_in-Keeps (boolean b) c p = p
  dict_in-Keeps (integer n) c p = p
  dict_in-Keeps (text t) c p = p
  dict_in-Keeps (array vs) c p = p
  dict_in-Keeps (object fs) c p = p

  -- what is read from an answer by `.get`
  read-Keeps :
      {B : Type 0} (v : Value) (f : Dict Value → Action B)
      → ((d : Dict Value) → Keeps P (f d))
      → Keeps P (dict_in v >>= f)
  read-Keeps v f h = bind-Keeps P (dict_in v) f (dict_in-Keeps v) h

  slots_in-Keeps :
      (setup : Setup) (server : Server) (d : Dict Value) → Keeps P (slots_in setup server d)
  unfolding slots_in
  slots_in-Keeps setup server [] c p = p
  slots_in-Keeps setup server ((day, object fs) ∷ d) c p =
      given-Keeps P type_error (iterated (get_or (fields_of fs) "slots" (array nil))) _
        (λ starts.
          bind-Keeps P (slots_in setup server d) _ (slots_in-Keeps setup server d)
            (λ rest. λ c p. p))
        c p
  slots_in-Keeps setup server ((day, null) ∷ d) c p = slots_in-Keeps setup server d c p
  slots_in-Keeps setup server ((day, boolean b) ∷ d) c p = slots_in-Keeps setup server d c p
  slots_in-Keeps setup server ((day, integer n) ∷ d) c p = slots_in-Keeps setup server d c p
  slots_in-Keeps setup server ((day, text t) ∷ d) c p = slots_in-Keeps setup server d c p
  slots_in-Keeps setup server ((day, array vs) ∷ d) c p = slots_in-Keeps setup server d c p

module _ (setup : Setup) (server : Server) (P : Client → Type 0)
    (passing : (d : ℕ) (c : Client) → P c → P (record c { now = c.now + d }))
    (asking : Keeps P creds_available)
    (sending : (m : Method) (path : String) (d : Dict Value) → Keeps P (send server m path d)) where
  answered-Keeps :
      {A : Type 0} (m : Method) (path : String) (d : Dict Value) (f : Value → Action A)
      → ((v : Value) → Keeps P (f v))
      → Keeps P (send server m path d >>= f)
  answered-Keeps m path d f h = bind-Keeps P (send server m path d) f (sending m path d) h

  unwrapped-Keeps : (key : String) (v : Value) → Keeps P (unwrapped key v)
  unwrapped-Keeps key v = read-Keeps P v (λ d. pure (or_value (field_of d key) v)) (λ d. λ c p. p)

  event_in-Keeps : (v : Value) → Keeps P (event_in v)
  event_in-Keeps v =
      read-Keeps P v
        (λ d. pure (or_value (field_of d "event") (or_value (field_of d "appointment") v)))
        (λ d. λ c p. p)

  contacts_of-Keeps : (query : String) → Keeps P (contacts_of setup server query)
  unfolding contacts_of
  contacts_of-Keeps query =
      answered-Keeps gets "/contacts/" (located setup server ++ ("query", text query) ∷ [])
        (contacts_in setup server)
        λ v. read-Keeps P v (λ d. pure (get_or d "contacts" (array nil))) (λ d. λ c p. p)

  get_contact-Keeps : (id : String) → Keeps P (get_contact setup server id)
  unfolding get_contact
  get_contact-Keeps id =
      answered-Keeps gets ("/contacts/" ⊕ id) [] (unwrapped "contact") (unwrapped-Keeps "contact")

  update_contact-Keeps :
      (id : String) (fields : Dict Value) → Keeps P (update_contact setup server id fields)
  unfolding update_contact
  update_contact-Keeps id fields =
      answered-Keeps puts ("/contacts/" ⊕ id) fields (unwrapped "contact")
        (unwrapped-Keeps "contact")

  send_tags-Keeps : (id : String) (ts : List Value) → Keeps P (send_tags setup server id ts)
  unfolding send_tags
  send_tags-Keeps id ts =
      bind-Keeps P (update_contact setup server id (("tags", array (of_items ts)) ∷ []))
        (λ answer. pure (boolean (not (is_none setup server answer))))
        (update_contact-Keeps id (("tags", array (of_items ts)) ∷ [])) (λ answer. λ c p. p)

  tag_contact-Keeps :
      (id : String) (ts : List Value) (v : Value) → Keeps P (tag_contact setup server id ts v)
  unfolding tag_contact
  tag_contact-Keeps id ts v =
      if-Keeps P (not (truthy v)) (pure (boolean false)) (dict_in v >>= retag setup server id ts)
        (λ c p. p)
        (read-Keeps P v (retag setup server id ts) λ d.
          given-Keeps P type_error
            (merged_tags setup server (or_value (field_of d "tags") (array nil)) ts)
            (send_tags setup server id) (send_tags-Keeps id))

  second_found-Keeps : (v : Value) → Keeps P (second_found setup server v)
  unfolding second_found
  second_found-Keeps v =
      if-Keeps P (truthy v) (given type_error (first_of v)) (pure null)
        (given_last-Keeps P type_error (first_of v)) (λ c p. p)

  again-Keeps :
      (phone : String) → Keeps P (contacts_of setup server phone >>= second_found setup server)
  again-Keeps phone =
      bind-Keeps P (contacts_of setup server phone) (second_found setup server)
        (contacts_of-Keeps phone) second_found-Keeps

  first_found-Keeps : (phone : String) (v : Value) → Keeps P (first_found setup server phone v)
  unfolding first_found
  first_found-Keeps phone v =
      if-Keeps P (truthy v) (given type_error (first_of v))
        (if setup.bare_phone phone == phone
          then pure null
          else contacts_of setup server (setup.bare_phone phone) >>= second_found setup server)
        (given_last-Keeps P type_error (first_of v))
        (if-Keeps P (setup.bare_phone phone == phone) (pure null)
          (contacts_of setup server (setup.bare_phone phone) >>= second_found setup server)
          (λ c p. p) (again-Keeps (setup.bare_phone phone)))

  fetch_slots-Keeps : (from to : ℕ) (tz : String) → Keeps P (fetch_slots setup server from to tz)
  unfolding fetch_slots
  fetch_slots-Keeps from to tz =
      answered-Keeps gets ("/calendars/" ⊕ setup.calendar_id ⊕ "/free-slots")
        (("startDate", integer (pos from))
          ∷ ("endDate", integer (pos to))
          ∷ ("timezone", text (if nonempty tz then tz else setup.office_timezone))
          ∷ [])
        (slots_of setup server)
        λ v.
          read-Keeps P v (λ d. slots_in setup server d >>= λ slots. pure (array (of_items slots)))
            λ d.
              bind-Keeps P (slots_in setup server d) (λ slots. pure (array (of_items slots)))
                (slots_in-Keeps P setup server d) (λ slots. λ c p. p)

  search-Keeps :
      (query : String) (limit : ℕ) → Keeps P (search_contacts_by_query setup server query limit)
  unfolding search_contacts_by_query
  search-Keeps query limit =
      bind-Keeps P creds_available
        (λ available.
          if not available then pure (array nil) else search_found setup server query limit)
        asking
        λ available.
          if-Keeps P (not available) (pure (array nil)) (search_found setup server query limit)
            (λ c p. p)
            (answered-Keeps gets "/contacts/"
              (located setup server ++ ("query", text query) ∷ ("limit", integer (pos limit)) ∷ [])
              (found_in setup server limit)
              λ v. read-Keeps P v (first_contacts setup server limit) λ d.
                given_last-Keeps P type_error
                  (cut limit (or_value (field_of d "contacts") (array nil))))

  pub perform-Keeps : (call : Call) → Keeps P (perform setup server call)
  unfolding perform search_contact_by_phone create_contact add_tags add_note get_available_slots
      create_appointment update_appointment_status get_appointment create_opportunity send_sms
  perform-Keeps (waits d) = passing d
  perform-Keeps (searches query limit) = search-Keeps query limit
  perform-Keeps (finds_phone phone) =
      bind-Keeps P (contacts_of setup server phone) (first_found setup server phone)
        (contacts_of-Keeps phone) (first_found-Keeps phone)
  perform-Keeps (reads_contact id) = get_contact-Keeps id
  perform-Keeps (creates phone first last email ts custom language) =
      answered-Keeps posts "/contacts/"
        (contact_payload setup server phone first last email ts custom language)
        (unwrapped "contact") (unwrapped-Keeps "contact")
  perform-Keeps (updates id fields) = update_contact-Keeps id fields
  perform-Keeps (tags id ts) =
      bind-Keeps P (get_contact setup server id) (tag_contact setup server id ts)
        (get_contact-Keeps id) (tag_contact-Keeps id ts)
  perform-Keeps (notes id body) =
      sending posts ("/contacts/" ⊕ id ⊕ "/notes") (("body", text body) ∷ [])
  perform-Keeps (lists_slots from to tz) =
      given-Keeps P value_error (setup.day_start from)
        (λ start.
          given value_error (setup.day_end to) >>= λ last. fetch_slots setup server start last tz)
        λ start.
          given-Keeps P value_error (setup.day_end to)
            (λ last. fetch_slots setup server start last tz)
            (λ last. fetch_slots-Keeps start last tz)
  perform-Keeps (books id from to title body tz) =
      answered-Keeps posts "/calendars/events/appointments"
        (appointment_payload setup server id from to title body tz) event_in event_in-Keeps
  perform-Keeps (sets_status id status) =
      answered-Keeps puts ("/calendars/events/appointments/" ⊕ id)
        (("appoinmentStatus", text status) ∷ []) (λ _. pure (boolean true)) (λ _. λ c p. p)
  perform-Keeps (reads_appointment id) =
      answered-Keeps gets ("/calendars/events/appointments/" ⊕ id) [] (event_or_none setup server)
        λ v.
          bind-Keeps P (event_in v) (λ found. pure (or_value found null)) (event_in-Keeps v)
            (λ _. λ c p. p)
  perform-Keeps (opens id name pipeline stage worth status) =
      answered-Keeps posts "/opportunities/"
        (opportunity_payload setup server id name pipeline stage worth status)
        (unwrapped "opportunity") (unwrapped-Keeps "opportunity")
  perform-Keeps (texts id message from) =
      answered-Keeps posts "/conversations/messages" (sms_payload setup server id message from)
        (λ _. pure (boolean true)) (λ _. λ c p. p)

  pub perform_all-Keeps :
      (calls : List Call) (c : Client) → P c → P (perform_all setup server calls c)
  unfolding perform_all
  perform_all-Keeps [] c p = p
  perform_all-Keeps (call ∷ calls) c p = perform_all-Keeps calls _ (perform-Keeps call c p)
