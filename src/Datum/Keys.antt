-- ===== src/Datum/Keys.antt =====
-- An abstract table of trees, as the reader leaves it: its entries in their order. It stands for the
-- contents of the tables of Table and Table.Object, and for no code of its own but one:
-- `lone_lisp_hash_of` of source/lone/lisp/hash.c exits on a value that has no hash. Slots, hashes,
-- the words of keys and the prototype are not part of it.
use lone.Prelude.{
  ℕ, Bool, true, false, List, [], ◌∷◌, Option, none, some, ◌==◌, ◌&&◌, if◌then◌else◌, ℤ, pos,
  negsuc,
}
use lone.Datum.{Datum, Fields, nil, boolean, integer, list, bytes, symbol, text, no_fields, field}

-- Whether a value has a hash: one in the word, a symbol, a text, a byte string that a literal made,
-- or a list of such.
unfoldable pub is_hashable : Datum → Bool
is_hashable nil = true
is_hashable (boolean b) = true
is_hashable (integer z) = true
is_hashable (bytes b) = true
is_hashable (symbol b) = true
is_hashable (text b) = true
is_hashable (list first rest) = is_hashable first && is_hashable rest
is_hashable _ = false

unfoldable pub same_bytes : List ℕ → List ℕ → Bool
same_bytes [] [] = true
same_bytes (x ∷ xs) (y ∷ ys) = (x == y) && same_bytes xs ys
same_bytes _ _ = false

unfoldable pub same_boolean : Bool → Bool → Bool
same_boolean true b = b
same_boolean false true = false
same_boolean false false = true

unfoldable pub same_integer : ℤ → ℤ → Bool
same_integer (pos m) (pos n) = m == n
same_integer (negsuc m) (negsuc n) = m == n
same_integer _ _ = false

-- Whether two keys are one key of the abstract table. What has no hash is never compared.
unfoldable pub key_matches : Datum → Datum → Bool
key_matches nil nil = true
key_matches (boolean a) (boolean b) = same_boolean a b
key_matches (integer a) (integer b) = same_integer a b
key_matches (bytes a) (bytes b) = same_bytes a b
key_matches (symbol a) (symbol b) = same_bytes a b
key_matches (text a) (text b) = same_bytes a b
key_matches (list a b) (list c d) = key_matches a c && key_matches b d
key_matches _ _ = false

-- The value of a key replaced in its place, or a new entry at the end.
unfoldable pub set_field : Fields → Datum → Datum → Fields
set_field no_fields key value = field key value no_fields
set_field (field stored old others) key value =
    if key_matches stored key
    then field stored value others
    else field stored old (set_field others key value)

-- `none` is the exit on a key that has no hash.
unfoldable pub table_set : Fields → Datum → Datum → Option Fields
table_set entries key value = if is_hashable key then some (set_field entries key value) else none
