-- ===== src/Worker/Columns.antt =====
-- Which columns the parts of the row of a call can have.
use mathlib.Core.Option.{some_inj}
use ai_receptionist_for_immi.Prelude.{
  String, ◌≡◌, refl, subst, ◌∙◌, inl, inr, Bool, true, false, ◌||◌, Option, none, some, [], ◌∷◌,
  ◌++◌, arith, ◌==◌, Bool-cases, Option-cases, ◌>>=◌, is_in, or_false,
}
use ai_receptionist_for_immi.Dict.{Dict, get, get-append}
use ai_receptionist_for_immi.Value.{truthy, Value}
use ai_receptionist_for_immi.Worker.{field_of, only_if, is_null, Services}
use ai_receptionist_for_immi.Worker.Sync.{name_of_parts, name_fields, duration_fields}

-- three results in a row that all have to be there
pub chain_inv {ℓ} :
    {A : Type ℓ} (a b c : Option A) (f : A → A → A → A) (r : A)
    → (a >>= λ x. b >>= λ y. c >>= λ z. some (f x y z)) ≡ some r
    → (x : A) × (y : A) × (z : A) × (a ≡ some x) × (b ≡ some y) × (c ≡ some z) × (f x y z ≡ r)
chain_inv none b c f r h = absurd (ground arith)
chain_inv (some x) none c f r h = absurd (ground arith)
chain_inv (some x) (some y) none f r h = absurd (ground arith)
chain_inv (some x) (some y) (some z) f r h = (x, y, z, refl, refl, refl, some_inj.0 h)

get-caller_name :
    (v : Value) (name : Dict Value) (key : String)
    → some (("caller_name", v) ∷ []) ≡ some name
    → ("caller_name" == key) ≡ false
    → get name key ≡ none
unfolding get
get-caller_name v name key h k = subst (λ d. get d key ≡ none) (some_inj.0 h) (rw k refl)

module _ (env : Services) where
  pub get-name_fields :
      (intake name : Dict Value) (key : String)
      → name_fields env intake ≡ some name
      → ("caller_name" == key) ≡ false
      → get name key ≡ none
  unfolding name_fields get
  get-name_fields intake name key h k = elim (Bool-cases (truthy (field_of intake "full_name"))) [
    | inl e ↦ get-caller_name (field_of intake "full_name") name key (rw e at h) k
    | inr e ↦
        elim (Bool-cases
          (truthy (field_of intake "first_name") || truthy (field_of intake "last_name"))) [
            | inr f ↦ subst (λ d. get d key ≡ none) (some_inj.0 (rw (e, f) at h)) refl
            | inl f ↦ elim (Option-cases (name_of_parts env intake)) [
              | inl g ↦ let k = rw (e, f, g) at h in absurd (ground arith)
              | inr (v, g) ↦ get-caller_name v name key (rw (e, f, g) at h) k
            ]
          ]
  ]

  pub get-duration_fields :
      (duration : Value) (fields : Dict Value) (key : String)
      → duration_fields env duration ≡ some fields
      → is_in key ("duration_seconds" ∷ "started_at" ∷ []) ≡ false
      → get fields key ≡ none
  unfolding duration_fields get
  get-duration_fields duration fields key h k = elim (Bool-cases (is_null duration)) [
    | inl e ↦ subst (λ d. get d key ≡ none) (some_inj.0 (rw e at h)) refl
    | inr e ↦ elim (Option-cases (env.iso_before duration)) [
      | inl g ↦ let k = rw (e, g) at h in absurd (ground arith)
      | inr (t, g) ↦
          let both = or_false ("duration_seconds" == key) (("started_at" == key) || false) k in
          let last = or_false ("started_at" == key) false both.1 in
          subst (λ d. get d key ≡ none) (some_inj.0 (rw (e, g) at h)) (rw (both.0, last.0) refl)
    ]
  ]

  get-only_if :
      (b : Bool) (k j : String) (v : Value) → (k == j) ≡ false → get (only_if b k v) j ≡ none
  unfolding get
  get-only_if true k j v h = rw h refl
  get-only_if false k j v h = refl

  -- behind the four columns that every row has
  pub get-tail :
      (phone outcome : Value) (name duration : Dict Value) (key : String)
      → ("caller_phone" == key) ≡ false
      → ("call_outcome" == key) ≡ false
      → get name key ≡ none
      → get duration key ≡ none
      → get
          (only_if (truthy phone) "caller_phone" phone
            ++ (name ++ (only_if (truthy outcome) "call_outcome" outcome ++ duration)))
          key
        ≡ none
  get-tail phone outcome name duration key p o n d =
      get-append (only_if (truthy phone) "caller_phone" phone)
        (name ++ (only_if (truthy outcome) "call_outcome" outcome ++ duration)) key
        (get-only_if (truthy phone) "caller_phone" key phone p)
      ∙ get-append name (only_if (truthy outcome) "call_outcome" outcome ++ duration) key n
      ∙ get-append (only_if (truthy outcome) "call_outcome" outcome) duration key
          (get-only_if (truthy outcome) "call_outcome" key outcome o)
      ∙ d
