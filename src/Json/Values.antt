-- ===== src/Json/Values.antt =====
-- The values of nlohmann::json that the server builds, with the members of an object in the order in which
-- they are written. How a value is dumped is a parameter of the functions that send it.
use natt.Prelude.{Bool, List, [], ◌∷◌, Text}
use natt.Prelude.Int.{ℤ}

mutual
  pub data Value : Type 0 where
    string : Text → Value
    number : ℤ → Value
    boolean : Bool → Value
    array : Values → Value
    object : Members → Value

  pub data Values : Type 0 where
    nil : Values
    item : Value → Values → Values

  pub data Members : Type 0 where
    end : Members
    field : Text → Value → Members → Members

unfoldable pub strings : List Text → Values
strings [] = nil
strings (s ∷ texts) = item (string s) (strings texts)
