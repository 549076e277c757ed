-- ===== src/Json.antt =====
-- The values of a key's metadata, `map[string]any`, which the pool only passes on.
use keypooler.Base.{String, Bool}
use keypooler.Float64.{Float64}

mutual
  pub data Value : Type 0 where
    null : Value
    boolean : Bool → Value
    number : Float64 → Value
    text : String → Value
    array : Items → Value
    object : Members → Value

  pub data Items : Type 0 where
    end : Items
    item : Value → Items → Items

  pub data Members : Type 0 where
    end_of : Members
    member : String → Value → Members → Members
