-- ===== src/Booking/Order.antt =====
-- The order in which `_handle_booking_confirmed` tries the slots that were offered.
use mathlib.Core.List.{Perm}
use mathlib.Core.List.Perm
use ai_receptionist_for_immi.Prelude.{
  String, ◌≡◌, refl, ap, Bool, true, false, Option, none, some, List, [], ◌∷◌, ◌++◌, if◌then◌else◌,
  any, or_false,
}
use ai_receptionist_for_immi.Calendar.{Slot}
use ai_receptionist_for_immi.Booking.{slot_matches, keep_behind, split_match, in_front, candidates}

in_front-perm :
    (c : Bool) (s : Slot) (slots : List Slot) (o : Option (Slot × List Slot))
    → Perm (in_front slots o) slots
    → Perm (in_front (s ∷ slots) (if c then some (s, slots) else keep_behind s o)) (s ∷ slots)
in_front-perm true s slots o h = Perm.refl (s ∷ slots)
in_front-perm false s slots none h = Perm.refl (s ∷ slots)
in_front-perm false s slots (some found) h =
    Perm.trans (Perm.swap s found.0 found.1) (Perm.cons s h)

-- The slots that are tried are exactly those that were offered, in another order at most.
pub candidates-perm : (iso : String) (pending : List Slot) → Perm (candidates iso pending) pending
unfolding candidates split_match
candidates-perm iso [] = Perm.refl []
candidates-perm iso (s ∷ slots) =
    in_front-perm (slot_matches iso s) s slots (split_match iso slots) (candidates-perm iso slots)

split_unmatched :
    (iso : String) (pending : List Slot)
    → any (slot_matches iso) pending ≡ false
    → split_match iso pending ≡ none
unfolding split_match
split_unmatched iso [] h = refl
split_unmatched iso (s ∷ slots) h =
    let h2 : (slot_matches iso s ≡ false) × (any (slot_matches iso) slots ≡ false) =
      or_false (slot_matches iso s) (any (slot_matches iso) slots) h in
    rw (h2.0, split_unmatched iso slots h2.1) refl

-- Where none of the offered slots matches the confirmed time, they are all tried as they stand, the first one first.
pub candidates_unmatched :
    (iso : String) (pending : List Slot)
    → any (slot_matches iso) pending ≡ false
    → candidates iso pending ≡ pending
unfolding candidates
candidates_unmatched iso pending h = ap (in_front pending) (split_unmatched iso pending h)

split_matched :
    (iso : String) (before : List Slot) (slot : Slot) (after : List Slot)
    → any (slot_matches iso) before ≡ false
    → slot_matches iso slot ≡ true
    → split_match iso (before ++ slot ∷ after) ≡ some (slot, before ++ after)
unfolding split_match
split_matched iso [] slot after h m = rw m refl
split_matched iso (s ∷ before) slot after h m =
    let h2 : (slot_matches iso s ≡ false) × (any (slot_matches iso) before ≡ false) =
      or_false (slot_matches iso s) (any (slot_matches iso) before) h in
    rw (h2.0, split_matched iso before slot after h2.1 m) refl

-- The first offered slot that matches is tried first, and the others keep their order.
pub candidates_matched :
    (iso : String) (before : List Slot) (slot : Slot) (after : List Slot)
    → any (slot_matches iso) before ≡ false
    → slot_matches iso slot ≡ true
    → candidates iso (before ++ slot ∷ after) ≡ slot ∷ (before ++ after)
unfolding candidates
candidates_matched iso before slot after h m =
    ap (in_front (before ++ slot ∷ after)) (split_matched iso before slot after h m)
