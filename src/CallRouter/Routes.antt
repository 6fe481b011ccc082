-- ===== src/CallRouter/Routes.antt =====
-- Where an inbound call goes.
use Prim.Native.Char.{Char, code}
use text.Mathlib.TextLemmas.{
  append_cancel_left, append_assoc as text_assoc, cons-append, head-eq_of_cons-eq,
}
use ai_receptionist_for_immi.Prelude.{
  String, ◌≡◌, refl, sym, ap, ◌∙◌, ◌≢◌, ◌↔◌, Bool, true, false, not, Option, none, some, arith,
  if◌then◌else◌, ◌⊕◌, ℤ,
}
use ai_receptionist_for_immi.CallRouter.{
  is_office_open, xml_head, twiml_ai_agent, voicemail_twiml, after_hours_message,
  at_capacity_message, twiml_after_hours, twiml_at_capacity, route_inbound_call, Moment, Settings,
  InboundCall,
}

-- two texts that share a beginning and then have different characters
diverge :
    (p : String) (c d : Char) (s t x y : String)
    → code c ≢ code d
    → (p ⊕ String.◌∷◌ c s) ⊕ x ≢ (p ⊕ String.◌∷◌ d t) ⊕ y
diverge p c d s t x y ne h =
    let shared = sym (text_assoc p (String.◌∷◌ c s) x) ∙ h ∙ text_assoc p (String.◌∷◌ d t) y in
    let rest = append_cancel_left p (String.◌∷◌ c s ⊕ x) (String.◌∷◌ d t ⊕ y) shared in
    ne (ap code (head-eq_of_cons-eq (sym (cons-append c s x) ∙ rest ∙ cons-append d t y)))

agent-ne-voicemail : (a b c d e f : String) → twiml_ai_agent a b c d ≢ voicemail_twiml e f
unfolding twiml_ai_agent voicemail_twiml
agent-ne-voicemail a b c d e f h =
    diverge "<Response><" "C" "S" "onnect><Stream url=\"wss://"
      "ay voice=\"Polly.Joanna\" language=\"en-US\">" _ _ (omega arith)
      (append_cancel_left xml_head _ _ h)

module _ (read_hm : String → Option (ℤ × ℤ)) (cfg : Settings) (c : InboundCall) (accepting : Bool)
    (now : Moment) where
  abbrev pub open_now : Option Bool
  open_now = is_office_open read_hm cfg.office_hours_start cfg.office_hours_end now

  abbrev pub agent : String
  agent = twiml_ai_agent cfg.base_host c.call_sid c.from_number c.to_number

  routed : Option Bool → Option String
  routed none = none
  routed (some is_open) = some (
      if not is_open
      then twiml_after_hours cfg.base_host c.language
      else if not accepting
      then twiml_at_capacity cfg.base_host c.language
      else agent)

  route-eq-routed :
      (o : Option Bool) → open_now ≡ o → route_inbound_call read_hm cfg c accepting now ≡ routed o
  unfolding route_inbound_call routed
  route-eq-routed none e = rw (e, route_inbound_call)
  route-eq-routed (some b) e = rw (e, route_inbound_call)

  not_agent : (m : String) → some (voicemail_twiml cfg.base_host m) ≢ some agent
  not_agent m h =
      agent-ne-voicemail cfg.base_host c.call_sid c.from_number c.to_number cfg.base_host m (cc h)

  routed-agent :
      (o : Option Bool) (b : Bool)
      → accepting ≡ b
      → routed o ≡ some agent
      → (o ≡ some true) × (b ≡ true)
  unfolding routed twiml_after_hours twiml_at_capacity
  routed-agent none b e h = cc
  routed-agent (some false) b e h = absurd (not_agent (after_hours_message c.language) h)
  routed-agent (some true) false e h =
      absurd (not_agent (at_capacity_message c.language) (rw e at h))
  routed-agent (some true) true e h = (refl, refl)

  -- A call is connected to the agent exactly if the office is open and connections are accepted.
  pub route-connects :
      (route_inbound_call read_hm cfg c accepting now ≡ some agent)
      ↔ ((open_now ≡ some true) × (accepting ≡ true))
  route-connects = (
    λ h. routed-agent open_now accepting refl (sym (route-eq-routed open_now refl) ∙ h),
    λ h. route-eq-routed (some true) h.0 ∙ unfold routed in (rw h.1),
  )
