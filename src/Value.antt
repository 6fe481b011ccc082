-- ===== src/Value.antt =====
-- The values that an intake field may hold: what `json.loads` returns, without fractional numbers.
use ai_receptionist_for_immi.Prelude.{
  String, Bool, true, false, not, none, some, eqb, nonempty, ℤ, pos, negsuc,
}
use ai_receptionist_for_immi.Dict.{Dict, get}

mutual
  pub data Value : Type 0 where
    null : Value
    boolean : Bool → Value
    integer : ℤ → Value
    text : String → Value
    array : Items → Value
    object : Fields → Value

  pub data Items : Type 0 where
    nil : Items
    cons : Value → Items → Items

  pub data Fields : Type 0 where
    end : Fields
    field : String → Value → Fields → Fields

-- Python's `bool(v)`
unfoldable pub truthy : Value → Bool
truthy null = false
truthy (boolean b) = b
truthy (integer (pos n)) = not (eqb n 0)
truthy (integer (negsuc n)) = true
truthy (text s) = nonempty s
truthy (array nil) = false
truthy (array (cons _ _)) = true
truthy (object end) = false
truthy (object (field _ _ _)) = true

-- `bool(d.get(key))`: a missing key gives `None`, which is false
unfoldable pub has : Dict Value → String → Bool
unfolding get truthy
has d key = elim (get d key) [ none ↦ false | some v ↦ truthy v ]
