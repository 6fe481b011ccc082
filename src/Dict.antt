-- ===== src/Dict.antt =====
-- Python's `dict` with text keys, in insertion order: `d[k] = v` keeps the place of a key that is
-- already there and appends a new one.
use ai_receptionist_for_immi.Prelude.{
  String, ◌≡◌, refl, inl, inr, Option, none, some, List, [], ◌∷◌, ◌++◌, map, arith, ◌==◌, eq_iff,
  if◌then◌else◌, Bool-cases,
}

abbrev pub Dict {ℓ} : Type ℓ → Type ℓ
Dict V = List (String × V)

module _ {ℓ} {V : Type ℓ} where
  -- d.get(k)
  unfoldable pub get : Dict V → String → Option V
  get [] k = none
  get ((j, v) ∷ d) k = if j == k then some v else get d k

  -- d[k] = v
  unfoldable pub put : Dict V → String → V → Dict V
  put [] k v = (k, v) ∷ []
  put ((j, w) ∷ d) k v = if j == k then (j, v) ∷ d else (j, w) ∷ put d k v

  -- d.get(k, default)
  unfoldable pub get_or : Dict V → String → V → V
  get_or d k default = elim (get d k) [ none ↦ default | some v ↦ v ]

  abbrev pub keys : Dict V → List String
  keys d = map (λ p. p.0) d

  pub get-put :
      (d : Dict V) (k j : String) (v : V) → get (put d k v) j ≡ (if k == j then some v else get d j)
  unfolding get put
  get-put [] k j v = refl
  get-put ((i, w) ∷ d) k j v = ground (arith, eq_iff k j, eq_iff i k, eq_iff i j, get-put d k j v)

  pub get-append : (d e : Dict V) (j : String) → get d j ≡ none → get (d ++ e) j ≡ get e j
  unfolding get
  get-append [] e j h = refl
  get-append ((k, v) ∷ d) e j h = elim (Bool-cases (k == j)) [
    | inl t ↦ let k = rw t at h in absurd (ground arith)
    | inr f ↦ rw f (get-append d e j (rw f at h))
  ]

  pub get-get_or :
      (d : Dict V) (k : String) (v default : V) → get d k ≡ some v → get_or d k default ≡ v
  unfolding get_or
  get-get_or d k v default h = rw (get_or, h) refl
