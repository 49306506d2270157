-- ===== src/Value.antt =====
-- wrkr-value/src/lib.rs: the values that scripts, the shared store and gRPC messages exchange.
-- Texts are their UTF-8 bytes, and a double is its 64-bit pattern. A hash map is a list of its
-- entries in the order in which it is iterated.
use wrkr.Prelude.{ℕ, Bool, Option, none, some, List}
use wrkr.Prelude.Int.{ℤ}

pub data MapKey : Type 0 where
  bool : Bool → MapKey
  i64 : ℤ → MapKey
  u64 : ℕ → MapKey
  string : List ℕ → MapKey

mutual
  pub data Value : Type 0 where
    null : Value
    bool : Bool → Value
    i64 : ℤ → Value
    u64 : ℕ → Value
    f64 : ℕ → Value
    string : List ℕ → Value
    bytes : List ℕ → Value
    array : Items → Value
    object : ObjectMap → Value
    map : MapMap → Value

  pub data Items : Type 0 where
    nil : Items
    cons : Value → Items → Items

  pub data ObjectMap : Type 0 where
    end : ObjectMap
    field : List ℕ → Value → ObjectMap → ObjectMap

  pub data MapMap : Type 0 where
    empty : MapMap
    entry : MapKey → Value → MapMap → MapMap

unfoldable pub as_i64 : Value → Option ℤ
as_i64 (Value.i64 v) = some v
as_i64 _ = none
