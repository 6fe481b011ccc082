-- ===== src/Conversation/RoundTrip.antt =====
-- What a call state is after it has been saved and loaded.
use ai_receptionist_for_immi.Prelude.{
  ℕ, String, ◌≡◌, refl, ap, ◌∙◌, fun_ext, inl, inr, false, Option, some, [], ◌∷◌, arith, ◌==◌,
  eq_refl, if◌then◌else◌, Bool-cases, ◌⊕◌, is_nil,
}
use ai_receptionist_for_immi.Dict.{Dict, get, put, get-put}
use ai_receptionist_for_immi.Conversation.{
  phase_value, phase_order, label_value, CallState, Phase, greeting, identification, urgency_triage,
  intake_phase, consultation_pitch, booking, confirmation, closing, UrgencyLabel, low, medium, high,
  emergency,
}
use ai_receptionist_for_immi.Conversation.Redis.{
  find_phase, find_label, labels, to_redis_mapping, read_fields, from_redis_mapping, hset,
  save_call_state, load_call_state, Codec, IsLawful,
}

find_phase-phase_value : (p : Phase) → find_phase phase_order (phase_value p) ≡ some p
unfolding phase_value
find_phase-phase_value greeting = refl
find_phase-phase_value identification = refl
find_phase-phase_value urgency_triage = refl
find_phase-phase_value intake_phase = refl
find_phase-phase_value consultation_pitch = refl
find_phase-phase_value booking = refl
find_phase-phase_value confirmation = refl
find_phase-phase_value closing = refl

find_label-label_value : (l : UrgencyLabel) → find_label labels (label_value l) ≡ some l
unfolding label_value
find_label-label_value low = refl
find_label-label_value medium = refl
find_label-label_value high = refl
find_label-label_value emergency = refl

put_nonempty :
    (d : Dict String) (k v : String)
    → (f : String × String) × (r : Dict String) × (put d k v ≡ f ∷ r)
unfolding put
put_nonempty [] k v = ((k, v), [], refl)
put_nonempty ((j, w) ∷ d) k v = elim (Bool-cases (j == k)) [
  | inl e ↦ ((j, v), d, rw e refl)
  | inr e ↦ ((j, w), put d k v, rw e refl)
]

-- what a key holds behind a list of writes, where it held `before`
abbrev latest : Dict String → String → Option String → Option String
latest [] key before = before
latest ((k, v) ∷ fields) key before = latest fields key (if k == key then some v else before)

module _ (c : Codec) where
  get-hset :
      (d fields : Dict String) (key : String)
      → get (hset c d fields) key ≡ latest fields key (get d key)
  unfolding hset
  get-hset d [] key = refl
  get-hset d ((k, v) ∷ fields) key =
      get-hset (put d k v) fields key ∙ ap (latest fields key) (get-put d k key v)

  hset_nonempty :
      (d fields : Dict String)
      → is_nil fields ≡ false
      → (g : String × String) × (r : Dict String) × (hset c d fields ≡ g ∷ r)
  unfolding hset
  hset_nonempty d [] h = absurd (ground arith)
  hset_nonempty d ((k, v) ∷ []) h = put_nonempty d k v
  hset_nonempty d ((k, v) ∷ f ∷ fields) h = hset_nonempty (put d k v) (f ∷ fields) refl

  from_nonempty :
      (sid : String) (d : Dict String) (now : ℕ)
      → (f : String × String) × (r : Dict String) × (d ≡ f ∷ r)
      → from_redis_mapping c sid d now ≡ read_fields c sid (get d) now
  unfolding from_redis_mapping
  from_nonempty sid d now (f, r, e) = rw e refl

  read_back :
      (s : CallState) (d : Dict String) (now : ℕ)
      → IsLawful c s
      → read_fields c s.call_sid (λ j. latest (to_redis_mapping c s) j (get d j)) now ≡ some s
  unfolding read_fields to_redis_mapping
  read_back s d now laws =
      rw
        (
          find_phase-phase_value s.phase,
          laws.loads-turns,
          laws.loads-intake,
          laws.read-urgency,
          find_label-label_value s.urgency_label,
          laws.read-lead,
          laws.read-phase_turns,
          laws.read-turn_count,
          laws.read-time,
        )
        refl

  -- A call state whose fields the readers read back is the same state after it has been saved and loaded
  -- under its id, whatever was stored for the call before.
  pub load-save_call_state :
      (s : CallState) (redis : String → Dict String) (now : ℕ)
      → IsLawful c s
      → load_call_state c s.call_sid (save_call_state c s redis) now ≡ some s
  unfolding load_call_state save_call_state to_redis_mapping
  load-save_call_state s redis now laws =
      let key = "conversation:" ⊕ s.call_sid in
      let d = hset c (redis key) (to_redis_mapping c s) in
      rw (eq_refl key) (
        from_nonempty s.call_sid d now (hset_nonempty (redis key) (to_redis_mapping c s) refl)
        ∙ ap (λ look. read_fields c s.call_sid look now)
            (fun_ext (get-hset (redis key) (to_redis_mapping c s)))
        ∙ read_back s (redis key) now laws)
