-- ===== src/Callback/Promotion.antt =====
-- app/telephony/outbound_callback.py: the callbacks that wait for their time in the sorted set
-- `callback_delayed`, and the move of those whose time has come to the queue.
use ai_receptionist_for_immi.Prelude.{
  ℕ, suc, ◌+◌, String, ◌≡◌, refl, sym, ap, ◌∙◌, inl, inr, Bool, true, false, Option, none, some,
  List, [], ◌∷◌, arith, ◌==◌, eq_iff, leb, eqb, if◌then◌else◌, Bool-cases, length,
}
use ai_receptionist_for_immi.Dict.{Dict, get}

-- the members of the sorted set with their scores, in the order of the scores
pub record Waiting : Type 0 where
  pub callback_queue : List String
  pub callback_delayed : Dict ℕ

-- `zrem`
unfoldable pub zrem : String → Dict ℕ → Dict ℕ
zrem raw [] = []
zrem raw ((r, due) ∷ d) = if r == raw then zrem raw d else (r, due) ∷ zrem raw d

-- `zrangebyscore("callback_delayed", 0, now)`
unfoldable pub due_by : ℕ → Dict ℕ → List String
due_by now [] = []
due_by now ((raw, due) ∷ d) = if leb due now then raw ∷ due_by now d else due_by now d

-- the pipeline over the callbacks that are ready
unfoldable pub move_ready : List String → Waiting → Waiting
unfolding zrem
move_ready [] w = w
move_ready (raw ∷ ready) w = move_ready ready (record {
  callback_queue = raw ∷ w.callback_queue;
  callback_delayed = zrem raw w.callback_delayed;
})

unfoldable pub promote_delayed_callbacks : ℕ → Waiting → ℕ × Waiting
unfolding move_ready due_by
promote_delayed_callbacks now w =
    let ready = due_by now w.callback_delayed in (length ready, move_ready ready w)

-- how often a callback stands in the queue
abbrev pub times : String → List String → ℕ
times raw [] = 0
times raw (r ∷ rs) = if r == raw then suc (times raw rs) else times raw rs

-- a sorted set has each member once
abbrev pub Unique : Dict ℕ → Type 0
Unique [] = Unit {0}
Unique ((raw, due) ∷ d) = (get d raw ≡ none) × Unique d

-- whether a callback with this score is due
abbrev pub has_come : ℕ → Option ℕ → Bool
has_come now none = false
has_come now (some due) = leb due now

get-zrem :
    (r raw : String) (d : Dict ℕ) → get (zrem r d) raw ≡ (if r == raw then none else get d raw)
unfolding zrem get
get-zrem r raw [] = ground arith
get-zrem r raw ((k, due) ∷ d) =
    ground (arith, eq_iff k r, eq_iff r raw, eq_iff k raw, get-zrem r raw d)

times-move_ready :
    (raw : String) (ready : List String) (w : Waiting)
    → times raw (move_ready ready w).callback_queue ≡ times raw ready + times raw w.callback_queue
unfolding move_ready
times-move_ready raw [] w = omega arith
times-move_ready raw (r ∷ ready) w = ground (
  arith,
  times-move_ready raw ready (record {
    callback_queue = r ∷ w.callback_queue;
    callback_delayed = zrem r w.callback_delayed;
  }),
)

length-move_ready :
    (ready : List String) (w : Waiting)
    → length (move_ready ready w).callback_queue ≡ length ready + length w.callback_queue
unfolding move_ready
length-move_ready [] w = omega arith
length-move_ready (r ∷ ready) w = omega (
  arith,
  length-move_ready ready (record {
    callback_queue = r ∷ w.callback_queue;
    callback_delayed = zrem r w.callback_delayed;
  }),
)

get-move_ready :
    (raw : String) (ready : List String) (w : Waiting)
    → get (move_ready ready w).callback_delayed raw
      ≡ (if eqb (times raw ready) 0 then get w.callback_delayed raw else none)
unfolding move_ready
get-move_ready raw [] w = refl
get-move_ready raw (r ∷ ready) w = ground (
  arith,
  get-zrem r raw w.callback_delayed,
  get-move_ready raw ready (record {
    callback_queue = r ∷ w.callback_queue;
    callback_delayed = zrem r w.callback_delayed;
  }),
)

times-due_by :
    (now : ℕ) (raw : String) (d : Dict ℕ)
    → Unique d
    → times raw (due_by now d) ≡ (if has_come now (get d raw) then 1 else 0)
unfolding due_by get
times-due_by now raw [] u = refl
times-due_by now raw ((k, due) ∷ d) u = elim (Bool-cases (k == raw)) [
  | inl e ↦
      let rest : times raw (due_by now d) ≡ 0 =
        times-due_by now raw d u.1
        ∙ ap (λ o. if has_come now o then 1 else 0) (ap (get d) (sym ((eq_iff k raw).0 e)) ∙ u.0) in
      ground (arith, e, rest)
  | inr e ↦ ground (arith, e, times-due_by now raw d u.1)
]

at_due :
    (due : Bool) (n : ℕ) (score o : Option ℕ)
    → n ≡ (if due then 1 else 0)
    → o ≡ (if eqb n 0 then score else none)
    → o ≡ (if due then none else score)
at_due true n score o e h = ground (arith, e, h)
at_due false n score o e h = ground (arith, e, h)

-- For every callback a promotion puts it into the queue once more and takes it out of the delayed set if
-- its time has come, and leaves it where it is, in both, if not; the answer counts those that are moved.
pub promote_delayed_callbacks-moved :
    (now : ℕ) (raw : String) (w : Waiting)
    → Unique w.callback_delayed
    → let due = has_come now (get w.callback_delayed raw) in
      let r = promote_delayed_callbacks now w in
      (times raw r.1.callback_queue ≡ (if due then 1 else 0) + times raw w.callback_queue)
      × (get r.1.callback_delayed raw ≡ (if due then none else get w.callback_delayed raw))
      × (length r.1.callback_queue ≡ r.0 + length w.callback_queue)
unfolding promote_delayed_callbacks
promote_delayed_callbacks-moved now raw w u =
    let ready = due_by now w.callback_delayed in
    let score = get w.callback_delayed raw in
    let n = times-due_by now raw w.callback_delayed u in
    (
      times-move_ready raw ready w ∙ ap (λ k. k + times raw w.callback_queue) n,
      at_due (has_come now score) (times raw ready) score
          (get (move_ready ready w).callback_delayed raw) n (get-move_ready raw ready w),
      length-move_ready ready w,
    )
