-- ===== src/Callback/Retries.antt =====
-- How often a caller is called back, by what one processing leaves of its calls.
use ai_receptionist_for_immi.Prelude.{
  ℕ, suc, ◌+◌, ◌-◌, ◌≤◌, String, ◌≡◌, inl, inr, true, false, Option, none, some, List, [], ◌∷◌,
  arith, Bool-cases, nonempty, pos_part, neg_part, ◌+ℤ◌, leb_ℤ, ℤ, pos, negsuc,
}
use ai_receptionist_for_immi.Callback.{
  or_text, requeue, create_ghl_fallback_task, callback_url, process_item, Item, Env, Effect,
  delay_until, dial, search_contacts, create_task,
}

-- the item that the effects put back for later
abbrev pub put_back : List Effect → Option Item
put_back [] = none
put_back (delay_until item due ∷ es) = some item
put_back (dial to url ∷ es) = put_back es
put_back (search_contacts phone ∷ es) = put_back es
put_back (create_task c t b d ∷ es) = put_back es

abbrev pub dials : List Effect → ℕ
dials [] = 0
dials (dial to url ∷ es) = suc (dials es)
dials (delay_until item due ∷ es) = dials es
dials (search_contacts phone ∷ es) = dials es
dials (create_task c t b d ∷ es) = dials es

abbrev number_of : Item → String
number_of item = or_text item.caller_number ""

-- What the handler does with an item, and when.
data Processed (env : Env) (item : Item) (es : List Effect) : Type 0 where
  no_number : nonempty (number_of item) ≡ false → es ≡ [] → Processed env item es
  closed :
      nonempty (number_of item) ≡ true
      → env.office_open ≡ false
      → es ≡ delay_until item (env.now + env.until_open) ∷ []
      → Processed env item es
  exhausted :
      nonempty (number_of item) ≡ true
      → env.office_open ≡ true
      → leb_ℤ (pos 3) item.retries ≡ true
      → es ≡ create_ghl_fallback_task env item
      → Processed env item es
  reached :
      (url : String)
      → leb_ℤ (pos 3) item.retries ≡ false
      → nonempty (or_text env.placed "") ≡ true
      → es ≡ dial (number_of item) url ∷ []
      → Processed env item es
  unreached :
      (url : String)
      → leb_ℤ (pos 3) item.retries ≡ false
      → nonempty (or_text env.placed "") ≡ false
      → es
        ≡ dial (number_of item) url
          ∷ delay_until (record item { retries = item.retries +ℤ pos 1 }) (env.now + 60)
          ∷ []
      → Processed env item es

-- the calls that an item has left
abbrev pub calls_left : ℤ → ℕ
calls_left r = 3 + neg_part r - pos_part r

abbrev pub left_over : Option Item → ℕ
left_over none = 0
left_over (some next) = calls_left next.retries

fewer_left : (r : ℤ) → leb_ℤ (pos 3) r ≡ false → suc (calls_left (r +ℤ pos 1)) ≤ calls_left r
unfolding ◌+ℤ◌
fewer_left (pos n) h = ground arith
fewer_left (negsuc n) h = ground arith

fallback_dials :
    (env : Env) (item : Item)
    → (dials (create_ghl_fallback_task env item) ≡ 0)
      × (put_back (create_ghl_fallback_task env item) ≡ none)
unfolding create_ghl_fallback_task
fallback_dials env item = ground arith

module _ (quote : String → String) (base_host : String) where
  process_item-cases :
      (env : Env) (item : Item) → Processed env item (process_item quote base_host env item)
  unfolding process_item requeue
  process_item-cases env item = elim (Bool-cases (nonempty (number_of item))) [
    | inr n ↦ no_number n (rw n)
    | inl n ↦ elim (Bool-cases env.office_open) [
      | inr o ↦ closed n o (rw (n, o))
      | inl o ↦ elim (Bool-cases (leb_ℤ (pos 3) item.retries)) [
        | inl r ↦ exhausted n o r (rw (n, o, r))
        | inr r ↦ elim (Bool-cases (nonempty (or_text env.placed ""))) [
          | inl q ↦
              reached (callback_url quote base_host (or_text item.language "en") item) r q
                (rw (n, o, r, q))
          | inr q ↦
              unreached (callback_url quote base_host (or_text item.language "en") item) r q
                (rw (n, o, r, q))
        ]
      ]
    ]
  ]

  dials-process :
      (env : Env) (item : Item) (es : List Effect)
      → Processed env item es
      → dials es + left_over (put_back es) ≤ calls_left item.retries
  dials-process env item es (no_number n e) = rw e (omega arith)
  dials-process env item es (closed n o e) = rw e (omega arith)
  dials-process env item es (exhausted n o r e) = rw e (ground (arith, fallback_dials env item))
  dials-process env item es (reached url r q e) = rw e (omega (arith, fewer_left item.retries r))
  dials-process env item es (unreached url r q e) = rw e (omega (arith, fewer_left item.retries r))

  -- Whatever the office hours, Twilio and the CRM answer, processing an item uses up the calls that it
  -- has left, three for a new one: what is dialled and what the item that is put back has left are
  -- together no more than that.
  pub dials-process_item :
      (env : Env) (item : Item)
      → dials (process_item quote base_host env item)
          + left_over (put_back (process_item quote base_host env item))
        ≤ calls_left item.retries
  dials-process_item env item =
      dials-process env item (process_item quote base_host env item) (process_item-cases env item)
