-- ===== src/Models/Value.antt =====
-- The values of Python's `Any` that reach the components: what JSON decodes to. Numbers are
-- integers; floating-point numbers are not modelled.
use civ_sim_taskify.Prelude.{String, Bool}
use civ_sim_taskify.Prelude.Int.{ℤ}

mutual
  pub data Value : Type 0 where
    null : Value
    bool : Bool → Value
    num : ℤ → Value
    obj : Fields → Value
    arr : Items → Value
    text : String → Value

  pub data Items : Type 0 where
    cons : Value → Items → Items
    nil : Items

  pub data Fields : Type 0 where
    field : String → Value → Fields → Fields
    end : Fields
