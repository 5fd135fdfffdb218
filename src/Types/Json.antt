-- ===== src/Types/Json.antt =====
-- The dynamic values (`interface{}`) that the program attaches to accounts and transactions.
use bitcoin_processing.Base.{String, Bool}
use bitcoin_processing.Base.Int.{ℤ}

mutual
  pub data Json : Type 0 where
    null : Json
    boolean : Bool → Json
    number : ℤ → Json
    text : String → Json
    array : Items → Json
    object : Fields → Json

  pub data Items : Type 0 where
    nil : Items
    cons : Json → Items → Items

  pub data Fields : Type 0 where
    end : Fields
    field : String → Json → Fields → Fields
