-- ===== src/CallLog/Turns.antt =====
-- What becomes of the turns that wait in the buffer of a call.
use ai_receptionist_for_immi.Prelude.{
  ℕ, zero, suc, ◌≤◌, String, ◌≡◌, refl, ◌∙◌, Bool, true, false, List, [], ◌∷◌, ◌++◌, append-nil,
  append_assoc, arith, length,
}
use ai_receptionist_for_immi.CallLog.{flush_from, flush_turn_buffer, Lists}

flush_from-kept :
    (moves : ℕ) (at_push : Bool) (queue items : List String)
    → (lost : List String) × (length lost ≤ 1)
      × ((flush_from moves at_push queue items).1.queue
            ++ (lost ++ (flush_from moves at_push queue items).1.buffer)
          ≡ queue ++ items)
unfolding flush_from
flush_from-kept moves at_push queue [] = ([], omega arith, refl)
flush_from-kept zero true queue (item ∷ items) = (item ∷ [], omega arith, refl)
flush_from-kept zero false queue (item ∷ items) = ([], omega arith, refl)
flush_from-kept (suc moves) at_push queue (item ∷ items) =
    let (lost, short, e) = flush_from-kept moves at_push (queue ++ item ∷ []) items in
    (lost, short, e ∙ append_assoc queue (item ∷ []) items)

flush_from-all :
    (moves : ℕ) (at_push : Bool) (queue items : List String)
    → length items ≤ moves
    → flush_from moves at_push queue items
      ≡ (length items, record { queue = queue ++ items; buffer = [] })
unfolding flush_from
flush_from-all moves at_push queue [] h = rw (append-nil queue) refl
flush_from-all zero at_push queue (item ∷ items) h = absurd (omega arith)
flush_from-all (suc moves) at_push queue (item ∷ items) h =
    rw
      (
        flush_from-all moves at_push (queue ++ item ∷ []) items (omega arith),
        append_assoc queue (item ∷ []) items,
      )
      refl

-- At the end of a call its buffered turns go to the queue in their order: all of them, with their number
-- as the result, where Redis holds out; else at most one turn is lost, and the others are in the queue
-- or still in the buffer.
pub flush_turn_buffer-turns :
    (moves : ℕ) (at_push : Bool) (lists : Lists)
    → ((lost : List String) × (length lost ≤ 1)
        × ((flush_turn_buffer moves at_push lists).1.queue
              ++ (lost ++ (flush_turn_buffer moves at_push lists).1.buffer)
            ≡ lists.queue ++ lists.buffer))
      × (flush_turn_buffer (length lists.buffer) at_push lists
          ≡ (length lists.buffer, record { queue = lists.queue ++ lists.buffer; buffer = [] }))
unfolding flush_turn_buffer
flush_turn_buffer-turns moves at_push lists = (
  flush_from-kept moves at_push lists.queue lists.buffer,
  flush_from-all (length lists.buffer) at_push lists.queue lists.buffer (omega arith),
)
