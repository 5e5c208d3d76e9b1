-- ===== src/Datum.antt =====
-- The values of include/lone/lisp/types.h as trees, which is how the reader makes and the printer
-- sees them: what a value holds, without its place in the heap. A symbol, a text and a byte string
-- are their bytes. `Items` are the values of a vector and the expressions of a function's code, and
-- `Fields` the entries of a table in the order of insertion.
pub mod Keys
pub mod Equality
use lone.Prelude.{ℕ, ◌+◌, Bool, List, [], ◌∷◌, ℤ}

mutual
  pub data Datum : Type 0 where
    nil : Datum
    boolean : Bool → Datum
    integer : ℤ → Datum
    module_value : Datum → Datum
    function : Datum → Items → Datum
    primitive : Datum → Datum
    continuation : ℤ → Datum
    generator : Datum → Datum
    list : Datum → Datum → Datum
    vector : Items → Datum
    table : Fields → Datum
    shape : ℤ → Datum
    bytes : List ℕ → Datum
    symbol : List ℕ → Datum
    text : List ℕ → Datum

  pub data Items : Type 0 where
    no_items : Items
    item : Datum → Items → Items

  pub data Fields : Type 0 where
    no_fields : Fields
    field : Datum → Datum → Fields → Fields

-- The chain of list values with these firsts, whose last rest is `rest`.
unfoldable pub list_onto : List Datum → Datum → Datum
list_onto [] rest = rest
list_onto (first ∷ firsts) rest = list first (list_onto firsts rest)

unfoldable pub append_item : Items → Datum → Items
append_item no_items value = item value no_items
append_item (item first items) value = item first (append_item items value)
