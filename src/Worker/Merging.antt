-- ===== src/Worker/Merging.antt =====
-- What the row of a call leaves alone in the database.
use mathlib.Core.Option.{some_inj}
use ai_receptionist_for_immi.Prelude.{
  String, ◌≡◌, refl, subst, inl, inr, true, false, none, some, List, [], ◌∷◌, arith, ◌==◌, eq_iff,
  Bool-cases, all, is_in, or_false, negsuc,
}
use ai_receptionist_for_immi.Dict.{Dict, get, get_or}
use ai_receptionist_for_immi.Value.{truthy, Value, integer}
use ai_receptionist_for_immi.Worker.Columns.{
  chain_inv, get-name_fields, get-duration_fields, get-tail,
}
use ai_receptionist_for_immi.Worker.{field_of, Services}
use ai_receptionist_for_immi.Worker.Sync.{
  at_least_zero, score_fields, name_fields, duration_fields, row_of, conversation_row,
}
use ai_receptionist_for_immi.Worker.Readings.{phone_of, duration_of, call_outcome_of}

-- the columns that only a full payload writes
abbrev pub protected_columns : List String
protected_columns =
    "lead_score" ∷ "urgency_score" ∷ "urgency_label" ∷ "scheduled_at" ∷ "appointment_id"
    ∷ "transferred_at" ∷ []

-- A payload without scores, appointment and transfer, as the safety net sends it.
pub record IsSkeleton (payload : Dict Value) : Type 0 where
  pub no_score : at_least_zero (get_or payload "lead_score" (integer (negsuc 0))) ≡ some false
  pub no_time : truthy (field_of payload "scheduled_at") ≡ false
  pub no_appointment : truthy (field_of payload "appointment_id") ≡ false
  pub no_transfer : truthy (field_of payload "transferred_at") ≡ false

abbrev AllOf : (String → Type 0) → List String → Type 0
AllOf P [] = Unit {0}
AllOf P (k ∷ ks) = P k × AllOf P ks

AllOf-at :
    (P : String → Type 0) (ks : List String) (key : String)
    → AllOf P ks
    → is_in key ks ≡ true
    → P key
AllOf-at P [] key all h = absurd (ground arith)
AllOf-at P (k ∷ ks) key all h = elim (Bool-cases (k == key)) [
  | inl e ↦ subst P ((eq_iff k key).0 e) all.0
  | inr e ↦ AllOf-at P ks key all.1 (rw e at h)
]

module _ (env : Services) where
  score_fields-skeleton :
      (payload scores : Dict Value)
      → IsSkeleton payload
      → score_fields env payload ≡ some scores
      → [] ≡ scores
  unfolding score_fields
  score_fields-skeleton payload scores s h = some_inj.0 (rw (s.no_score) at h)

  -- the columns that a payload without scores, appointment and transfer may write
  abbrev written_columns : List String
  written_columns =
      "call_sid" ∷ "language_detected" ∷ "updated_at" ∷ "channel" ∷ "caller_phone" ∷ "caller_name"
      ∷ "call_outcome" ∷ "duration_seconds" ∷ "started_at" ∷ []

  Differs : String → List String → Type 0
  Differs key ks = AllOf (λ k. (k == key) ≡ false) ks

  not_in-Differs : (key : String) (ks : List String) → is_in key ks ≡ false → Differs key ks
  unfolding Differs
  not_in-Differs key [] h = tt
  not_in-Differs key (k ∷ ks) h =
      let both = or_false (k == key) (is_in key ks) h in (both.0, not_in-Differs key ks both.1)

  get-row_of :
      (call_sid : Value) (payload : Dict Value) (phone outcome : Value) (name duration : Dict Value)
      (key : String)
      → IsSkeleton payload
      → Differs key written_columns
      → get name key ≡ none
      → get duration key ≡ none
      → get (row_of env call_sid payload phone outcome [] name duration) key ≡ none
  unfolding row_of get Differs
  get-row_of call_sid payload phone outcome name duration key s
        (a, (b, (c, (d, (e, (f, (g, rest))))))) n t =
      rw (s.no_time, s.no_appointment, s.no_transfer, a, b, c, d)
        (get-tail env phone outcome name duration key e g n t)

  Unwritten : String → Type 0
  Unwritten k =
      (Differs k written_columns)
      × (("caller_name" == k) ≡ false)
      × (is_in k ("duration_seconds" ∷ "started_at" ∷ []) ≡ false)

  separate :
      (k : String)
      → is_in k written_columns ≡ false
      → ("caller_name" == k) ≡ false
      → is_in k ("duration_seconds" ∷ "started_at" ∷ []) ≡ false
      → Unwritten k
  unfolding Unwritten
  separate k a b c = (not_in-Differs k written_columns a, b, c)

  -- the columns that are protected are none of those that may be written
  protected-Unwritten : (key : String) → is_in key protected_columns ≡ true → Unwritten key
  unfolding Unwritten
  protected-Unwritten key h =
      AllOf-at
        (λ k.
          (Differs k written_columns)
          × (("caller_name" == k) ≡ false)
          × (is_in k ("duration_seconds" ∷ "started_at" ∷ []) ≡ false))
        protected_columns key
        (
          separate "lead_score" refl refl refl,
          (
            separate "urgency_score" refl refl refl,
            (
              separate "urgency_label" refl refl refl,
              (
                separate "scheduled_at" refl refl refl,
                (
                  separate "appointment_id" refl refl refl,
                  (separate "transferred_at" refl refl refl, tt),
                ),
              ),
            ),
          ),
        )
        h

  conversation_row-unwritten :
      (call_sid : Value) (payload intake row : Dict Value) (key : String)
      → IsSkeleton payload
      → conversation_row env call_sid payload intake ≡ some row
      → is_in key protected_columns ≡ true
      → get row key ≡ none
  unfolding conversation_row Unwritten
  conversation_row-unwritten call_sid payload intake row key s h p =
      let away = protected-Unwritten key p in
      let (scores, name, duration, es, en, ed, e) =
        chain_inv (score_fields env payload) (name_fields env intake)
          (duration_fields env (duration_of env call_sid payload))
          (row_of env call_sid payload (phone_of env call_sid intake)
            (call_outcome_of env call_sid payload))
          row h in
      subst (λ r. get r key ≡ none) e
        (subst
          (λ r.
            get
              (row_of env call_sid payload (phone_of env call_sid intake)
                (call_outcome_of env call_sid payload) r name duration)
              key
            ≡ none)
          (score_fields-skeleton payload scores s es)
          (get-row_of call_sid payload (phone_of env call_sid intake)
            (call_outcome_of env call_sid payload) name duration key s away.0
            (get-name_fields env intake name key en away.1)
            (get-duration_fields env (duration_of env call_sid payload) duration key ed away.2)))

  -- A payload without a lead score, an appointment and a transfer never overwrites the scores, the
  -- appointment and the transfer that are stored, if an upsert leaves alone the columns that its row does
  -- not have.
  pub skeleton_keeps :
      (upserted : Dict Value → Dict Value → Dict Value) (call_sid : Value)
      (payload intake row old : Dict Value) (key : String)
      → ((stored new : Dict Value) (k : String)
          → get new k ≡ none
          → get (upserted stored new) k ≡ get stored k)
      → IsSkeleton payload
      → conversation_row env call_sid payload intake ≡ some row
      → is_in key protected_columns ≡ true
      → get (upserted old row) key ≡ get old key
  skeleton_keeps upserted call_sid payload intake row old key law s h p =
      law old row key (conversation_row-unwritten call_sid payload intake row key s h p)
