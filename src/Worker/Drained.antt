-- ===== src/Worker/Drained.antt =====
-- In which order the worker takes the items of its queues.
use ai_receptionist_for_immi.Prelude.{
  ℕ, zero, suc, String, ◌≡◌, refl, sym, ap, subst, ◌∙◌, inl, inr, true, false, List, [], ◌∷◌, ◌++◌,
  map, append-nil, arith, ◌==◌, eq_iff, if◌then◌else◌, Bool-cases, is_in, take, drop,
}
use ai_receptionist_for_immi.Worker.Queues.{queue_names, Lists, pop, one_round, rounds}

-- the items of one queue among those that are taken
abbrev pub of_queue : String → List (String × String) → List String
of_queue q [] = []
of_queue q ((queue, item) ∷ items) =
    if queue == q then item ∷ of_queue q items else of_queue q items

-- no name stands twice in a list of queues
abbrev Distinct : List String → Type 0
Distinct [] = Unit {0}
Distinct (q ∷ qs) = (is_in q qs ≡ false) × Distinct qs

of_queue-append :
    (q : String) (xs ys : List (String × String))
    → of_queue q (xs ++ ys) ≡ of_queue q xs ++ of_queue q ys
of_queue-append q [] ys = refl
of_queue-append q ((queue, item) ∷ xs) ys = elim (Bool-cases (queue == q)) [
  | inl e ↦ rw (e, of_queue-append q xs ys) refl
  | inr e ↦ rw (e, of_queue-append q xs ys) refl
]

of_queue-map :
    (q queue : String) (xs : List String)
    → of_queue q (map (λ item. (queue, item)) xs) ≡ (if queue == q then xs else [])
of_queue-map q queue [] = ground arith
of_queue-map q queue (x ∷ xs) = elim (Bool-cases (queue == q)) [
  | inl e ↦ rw (e, of_queue-map q queue xs, e) refl
  | inr e ↦ rw (e, of_queue-map q queue xs, e) refl
]

eq_flip : (a b : String) → (a == b) ≡ (b == a)
eq_flip a b = ground (arith, eq_iff a b, eq_iff b a)

-- both sides of a drain at one queue, with the test on the names decided
pop-at :
    (q queue : String) (lists : Lists)
    → ((pop queue lists).0 q ≡ (if q == queue then drop 1 (lists q) else lists q))
      × (of_queue q (pop queue lists).1 ≡ (if q == queue then take 1 (lists q) else []))
unfolding pop
pop-at q queue lists = (
  refl,
  of_queue-map q queue (take 1 (lists queue)) ∙ elim (Bool-cases (q == queue)) [
    | inl e ↦ rw (eq_flip queue q, e) (ap (λ x. take 1 (lists x)) (sym ((eq_iff q queue).0 e)))
    | inr e ↦ rw (eq_flip queue q, e) refl
  ],
)

module _ (q : String) where
  lists-one_round :
      (qs : List String) (lists : Lists)
      → Distinct qs
      → (one_round qs lists).0 q ≡ (if is_in q qs then drop 1 (lists q) else lists q)
  unfolding one_round
  lists-one_round [] lists d = refl
  lists-one_round (queue ∷ qs) lists d =
      lists-one_round qs (pop queue lists).0 d.1 ∙ elim (Bool-cases (q == queue)) [
        | inl e ↦
            rw
              (
                (pop-at q queue lists).0,
                eq_flip queue q,
                e,
                subst (λ x. is_in x qs ≡ false) (sym ((eq_iff q queue).0 e)) d.0,
              )
              refl
        | inr e ↦ rw ((pop-at q queue lists).0, eq_flip queue q, e) refl
      ]

  taken-one_round :
      (qs : List String) (lists : Lists)
      → Distinct qs
      → of_queue q (one_round qs lists).1 ≡ (if is_in q qs then take 1 (lists q) else [])
  unfolding one_round
  taken-one_round [] lists d = refl
  taken-one_round (queue ∷ qs) lists d =
      of_queue-append q (pop queue lists).1 (one_round qs (pop queue lists).0).1
      ∙ elim (Bool-cases (q == queue)) [
        | inl e ↦
            rw
              (
                (pop-at q queue lists).1,
                taken-one_round qs (pop queue lists).0 d.1,
                eq_flip queue q,
                e,
                subst (λ x. is_in x qs ≡ false) (sym ((eq_iff q queue).0 e)) d.0,
              )
              (append-nil (take 1 (lists q)))
        | inr e ↦
            rw
              (
                (pop-at q queue lists).1,
                taken-one_round qs (pop queue lists).0 d.1,
                (pop-at q queue lists).0,
                eq_flip queue q,
                e,
              )
              refl
      ]

queues-Distinct : Distinct queue_names
queues-Distinct = (refl, (refl, (refl, (refl, (refl, (refl, (refl, (refl, tt))))))))

drop-drop : (n : ℕ) (xs : List String) → drop n (drop 1 xs) ≡ drop (suc n) xs
drop-drop zero [] = refl
drop-drop (suc n) [] = refl
drop-drop n (x ∷ xs) = refl

take-drop : (n : ℕ) (xs : List String) → take 1 xs ++ take n (drop 1 xs) ≡ take (suc n) xs
take-drop zero [] = refl
take-drop (suc n) [] = refl
take-drop n (x ∷ xs) = refl

-- Where nothing is added, each round takes the next item of every queue: after n rounds the first n items
-- of a queue have been taken, each once and in order, and the others are left.
pub rounds-drain :
    (q : String) (n : ℕ) (lists : Lists)
    → is_in q queue_names ≡ true
    → (of_queue q (rounds n lists).1 ≡ take n (lists q)) × ((rounds n lists).0 q ≡ drop n (lists q))
unfolding rounds
rounds-drain q zero lists h = (refl, refl)
rounds-drain q (suc n) lists h =
    let first = one_round queue_names lists in
    let rest = rounds-drain q n first.0 h in
    let left = lists-one_round q queue_names lists queues-Distinct in
    let taken = taken-one_round q queue_names lists queues-Distinct in
    (
      of_queue-append q first.1 (rounds n first.0).1
          ∙ rw (rest.0, left, taken, h) (take-drop n (lists q)),
      rest.1 ∙ rw (left, h) (drop-drop n (lists q)),
    )
