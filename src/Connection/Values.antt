-- ===== src/Connection/Values.antt =====
-- The dynamic values (`any`) that the SDK decodes query results into.
use surql_go.Prelude.{ℕ, Bool, Str}

mutual
  pub data Value : Type 0 where
    nil : Value
    boolean : Bool → Value
    text : Str → Value
    number : ℕ → Value
    time : ℕ → Value
    -- []any
    array : Values → Value
    -- map[string]any
    object : Fields → Value

  pub data Values : Type 0 where
    no_values : Values
    value : Value → Values → Values

  pub data Fields : Type 0 where
    no_fields : Fields
    field : Str → Value → Fields → Fields
