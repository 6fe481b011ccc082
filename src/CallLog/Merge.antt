-- ===== src/CallLog/Merge.antt =====
-- Which value of a field the merged intake has.
use ai_receptionist_for_immi.Prelude.{
  String, ◌≡◌, refl, sym, subst, ◌∙◌, inl, inr, Bool, not, ◌&&◌, some, List, [], ◌∷◌, arith, ◌==◌,
  eq_iff, eq_refl, if◌then◌else◌, Bool-cases, is_some, is_in,
}
use ai_receptionist_for_immi.Dict.{Dict, get, put, get-put}
use ai_receptionist_for_immi.Value.{truthy, Value}
use ai_receptionist_for_immi.Worker.{field_of}
use ai_receptionist_for_immi.CallLog.{prefer_base, prefer, fill_gaps, merge_intake}

-- the field that is there already stays
get-fill_gaps :
    (base merged : Dict Value) (key : String) (v : Value)
    → get merged key ≡ some v
    → get (fill_gaps base merged) key ≡ some v
unfolding fill_gaps
get-fill_gaps [] merged key v h = h
get-fill_gaps ((k, w) ∷ base) merged key v h =
    elim (Bool-cases (not (is_some (get merged k)) && truthy w)) [
      | inl e ↦ rw e (
          get-fill_gaps base (put merged k w) key v (
            get-put merged k key w ∙ elim (Bool-cases (k == key)) [
              | inl f ↦
                  (let g = subst (λ j. get merged j ≡ some v) (sym ((eq_iff k key).0 f)) h in
                    let c = rw g at e in absurd (ground arith))
              | inr f ↦ rw f h
            ]))
      | inr e ↦ rw e (get-fill_gaps base merged key v h)
    ]

-- a step at the field itself
at_key :
    (b : Bool) (base merged : Dict Value) (k : String)
    → (if b && truthy (field_of base k)
        then some (field_of base k)
        else get (if truthy (field_of base k) then put merged k (field_of base k) else merged) k)
      ≡ (if truthy (field_of base k) then some (field_of base k) else get merged k)
at_key b base merged k = elim (Bool-cases (truthy (field_of base k))) [
  | inl t ↦ rw (t, get-put merged k k (field_of base k), eq_refl k) (ground arith)
  | inr t ↦ rw t (ground arith)
]

get-prefer :
    (ks : List String) (base merged : Dict Value) (key : String)
    → get (prefer ks base merged) key ≡ (
        if is_in key ks && truthy (field_of base key)
        then some (field_of base key)
        else get merged key)
unfolding prefer
get-prefer [] base merged key = refl
get-prefer (k ∷ ks) base merged key = elim (Bool-cases (k == key)) [
  | inl f ↦
      subst
        (λ j. get (prefer (k ∷ ks) base merged) j ≡ (
          if is_in j (k ∷ ks) && truthy (field_of base j)
          then some (field_of base j)
          else get merged j))
        ((eq_iff k key).0 f)
        (rw (eq_refl k) (
          get-prefer ks base
            (if truthy (field_of base k) then put merged k (field_of base k) else merged) k
          ∙ at_key (is_in k ks) base merged k))
  | inr f ↦ elim (Bool-cases (truthy (field_of base k))) [
    | inl t ↦
        rw (t, f)
          (get-prefer ks base (put merged k (field_of base k)) key
            ∙ rw (get-put merged k key (field_of base k), f) refl)
    | inr t ↦ rw (t, f) (get-prefer ks base merged key)
  ]
]

-- In the merged intake a confirmed value of the name, the phone, the email or the appointment stands before
-- the one that the model has extracted; every other field that the model has extracted is kept.
pub get-merge_intake :
    (base extracted : Dict Value) (key : String) (v : Value)
    → (if is_in key prefer_base && truthy (field_of base key)
        then some (field_of base key)
        else get extracted key)
      ≡ some v
    → get (merge_intake base extracted) key ≡ some v
unfolding merge_intake
get-merge_intake base extracted key v h =
    get-fill_gaps base (prefer prefer_base base extracted) key v
      (get-prefer prefer_base base extracted key ∙ h)
