-- ===== src/Printer/RoundTrip/Readable.antt =====
-- The values that print to what the reader reads back.
use lone.Prelude.{◌≡◌, refl, ap, Bool, true, false, All, IsByte, ◌&&◌, not, fits}
use lone.Datum.{
  Datum, Items, Fields, nil, integer, list, vector, table, bytes, symbol, text, no_items, item,
  no_fields, field, append_item,
}
use lone.Datum.Keys.{is_hashable, key_matches, set_field}
use lone.Printer.RoundTrip.Symbols.{IsName}
use lone.Printer.RoundTrip.Literals.{IsText}

-- Whether no key of these entries matches a key.
unfoldable pub is_absent : Datum → Fields → Bool
is_absent key no_fields = true
is_absent key (field stored _ others) = not (key_matches key stored) && is_absent key others

-- Nothing but nil, integers of 56 bits, symbols whose name satisfies `IsName`, which is lexical,
-- texts in UTF-8, bytes, and lists, vectors and tables of such. The keys of a table have hashes, and no two of them match.
unfoldable mutual
  pub IsReadable : Datum → Type 0
  IsReadable nil = Unit {0}
  IsReadable (integer z) = fits 55 z ≡ true
  IsReadable (symbol name) = IsName name
  IsReadable (text content) = IsText content
  IsReadable (bytes content) = All IsByte content
  IsReadable (list first rest) = IsReadable first × IsReadable rest
  IsReadable (vector items) = AreReadable items
  IsReadable (table entries) = IsReadableTable entries
  IsReadable _ = ⊥

  pub AreReadable : Items → Type 0
  AreReadable no_items = Unit {0}
  AreReadable (item element rest) = IsReadable element × AreReadable rest

  pub IsReadableTable : Fields → Type 0
  IsReadableTable no_fields = Unit {0}
  IsReadableTable (field key value others) =
      IsReadable key
      × (is_hashable key ≡ true)
      × (is_absent key others ≡ true)
      × IsReadable value
      × IsReadableTable others

-- The items or entries read so far, and those to come.
unfoldable pub items_onto : Items → Items → Items
items_onto no_items after = after
items_onto (item element rest) after = item element (items_onto rest after)

unfoldable pub fields_onto : Fields → Fields → Fields
fields_onto no_fields after = after
fields_onto (field key value others) after = field key value (fields_onto others after)

pub items_onto-append_item :
    (items : Items) (value : Datum) (after : Items)
    → items_onto (append_item items value) after ≡ items_onto items (item value after)
unfolding items_onto append_item
items_onto-append_item no_items value after = refl
items_onto-append_item (item x xs) value after = ap (item x) (items_onto-append_item xs value after)

pub items_onto-no_items : (items : Items) → items_onto items no_items ≡ items
unfolding items_onto
items_onto-no_items no_items = refl
items_onto-no_items (item x xs) = ap (item x) (items_onto-no_items xs)

pub fields_onto-no_fields : (entries : Fields) → fields_onto entries no_fields ≡ entries
unfolding fields_onto
fields_onto-no_fields no_fields = refl
fields_onto-no_fields (field k v rest) = ap (field k v) (fields_onto-no_fields rest)

-- No key read so far matches one to come.
unfoldable pub Apart : Fields → Fields → Type 0
Apart no_fields after = Unit {0}
Apart (field key _ others) after = (is_absent key after ≡ true) × Apart others after

and_true : (a b : Bool) → (not a && b) ≡ true → (a ≡ false) × (b ≡ true)
and_true true b h = cc
and_true false b h = (refl, h)

-- The assignment of a key to come appends an entry.
pub set_field-Apart :
    (entries : Fields) (key value : Datum) (after : Fields)
    → Apart entries (field key value after)
    → fields_onto (set_field entries key value) after ≡ fields_onto entries (field key value after)
unfolding fields_onto set_field Apart is_absent
set_field-Apart no_fields key value after h = refl
set_field-Apart (field k v rest) key value after h =
    rw ((and_true (key_matches k key) (is_absent k after) h.0).0)
      (ap (field k v) (set_field-Apart rest key value after h.1))

pub Apart-set_field :
    (entries : Fields) (key value : Datum) (after : Fields)
    → Apart entries (field key value after)
    → is_absent key after ≡ true
    → Apart (set_field entries key value) after
unfolding set_field Apart is_absent
Apart-set_field no_fields key value after h fresh = (fresh, tt)
Apart-set_field (field k v rest) key value after h fresh =
    let p = and_true (key_matches k key) (is_absent k after) h.0 in
    rw (p.0) (p.1, Apart-set_field rest key value after h.1 fresh)
