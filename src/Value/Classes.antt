-- ===== src/Value/Classes.antt =====
-- The type predicates against the type that a word has.
use lone.Prelude.{
  ℕ, ◌%◌, ◌<◌, ◌≡◌, refl, sym, ap, ◌∙◌, arith, Bool, true, bit_and, ◌==◌, ◌||◌, agree_below,
  as_number, agree_below→predicates,
}
use lone.Value.{
  symbol_tag, text_tag, bytes_tag, integer_tag, nil_tag, list_tag, false_tag, function_tag,
  primitive_tag, continuation_tag, generator_tag, vector_tag, table_tag, code, type_of, has_tag,
  is_inline_symbol, is_inline_text, is_inline_bytes, is_nil, is_false, is_symbol, is_text, is_bytes,
  has_bytes, is_integer, is_list, is_falsy, is_applicable,
}
use lone.Value.Masks.{bit_and-low}

-- A predicate on words that reads the low byte only.
abbrev ReadsLowByte : (ℕ → Bool) → Type 0
ReadsLowByte p = (w : ℕ) → p w ≡ p (w % 256)

low_byte : (w m : ℕ) → m < 256 → bit_and w m ≡ bit_and (w % 256) m
low_byte w m h = bit_and-low 8 w m h

pub type_of-low : (w : ℕ) → type_of w ≡ type_of (w % 256)
unfolding type_of
type_of-low w = rw (low_byte w 0xFF (omega arith)) refl

agree :
    (p q : ℕ → Bool)
    → ReadsLowByte p
    → ReadsLowByte q
    → agree_below (λ i. as_number (p i)) (λ i. as_number (q i)) 256 ≡ true
    → (w : ℕ) → p w ≡ q w
agree p q hp hq e w = hp w ∙ (agree_below→predicates p q 256 e (w % 256) (omega arith) ∙ sym (hq w))

abbrev symbol_type : ℕ → Bool
symbol_type w = type_of w == code symbol_tag

symbol_table :
    agree_below (λ i. as_number (is_symbol i)) (λ i. as_number (symbol_type i)) 256 ≡ true
unfolding agree_below is_symbol has_tag is_inline_symbol is_inline_text is_inline_bytes is_nil
    is_false type_of code
symbol_table = refl

is_symbol-low : ReadsLowByte is_symbol
unfolding is_symbol has_tag is_inline_symbol is_inline_text is_inline_bytes is_nil is_false
is_symbol-low w = rw (low_byte w 0xFF (omega arith), low_byte w 0xF1 (omega arith)) refl

is_symbol-type_of : (w : ℕ) → is_symbol w ≡ symbol_type w
is_symbol-type_of =
    agree is_symbol symbol_type is_symbol-low
      (λ w. ap (λ (t : ℕ). t == code symbol_tag) (type_of-low w)) symbol_table

abbrev text_type : ℕ → Bool
text_type w = type_of w == code text_tag

text_table : agree_below (λ i. as_number (is_text i)) (λ i. as_number (text_type i)) 256 ≡ true
unfolding agree_below is_text has_tag is_inline_symbol is_inline_text is_inline_bytes is_nil
    is_false type_of code
text_table = refl

is_text-low : ReadsLowByte is_text
unfolding is_text has_tag is_inline_symbol is_inline_text is_inline_bytes is_nil is_false
is_text-low w = rw (low_byte w 0xFF (omega arith), low_byte w 0xF1 (omega arith)) refl

is_text-type_of : (w : ℕ) → is_text w ≡ text_type w
is_text-type_of =
    agree is_text text_type is_text-low (λ w. ap (λ (t : ℕ). t == code text_tag) (type_of-low w))
      text_table

abbrev bytes_type : ℕ → Bool
bytes_type w = type_of w == code bytes_tag

bytes_table : agree_below (λ i. as_number (is_bytes i)) (λ i. as_number (bytes_type i)) 256 ≡ true
unfolding agree_below is_bytes has_tag is_inline_symbol is_inline_text is_inline_bytes is_nil
    is_false type_of code
bytes_table = refl

is_bytes-low : ReadsLowByte is_bytes
unfolding is_bytes has_tag is_inline_symbol is_inline_text is_inline_bytes is_nil is_false
is_bytes-low w = rw (low_byte w 0xFF (omega arith), low_byte w 0xF1 (omega arith)) refl

is_bytes-type_of : (w : ℕ) → is_bytes w ≡ bytes_type w
is_bytes-type_of =
    agree is_bytes bytes_type is_bytes-low
      (λ w. ap (λ (t : ℕ). t == code bytes_tag) (type_of-low w)) bytes_table

abbrev with_bytes_type : ℕ → Bool
with_bytes_type w =
    type_of w == code symbol_tag || type_of w == code text_tag || type_of w == code bytes_tag

with_bytes_table :
    agree_below (λ i. as_number (has_bytes i)) (λ i. as_number (with_bytes_type i)) 256 ≡ true
unfolding agree_below has_bytes has_tag is_inline_symbol is_inline_text is_inline_bytes is_nil
    is_false type_of code
with_bytes_table = refl

has_bytes-low : ReadsLowByte has_bytes
unfolding has_bytes has_tag is_inline_symbol is_inline_text is_inline_bytes is_nil is_false
has_bytes-low w = rw (low_byte w 0xFF (omega arith), low_byte w 0xF1 (omega arith)) refl

has_bytes-type_of : (w : ℕ) → has_bytes w ≡ with_bytes_type w
has_bytes-type_of =
    agree has_bytes with_bytes_type has_bytes-low
      (λ w.
        ap (λ (t : ℕ). t == code symbol_tag || t == code text_tag || t == code bytes_tag)
          (type_of-low w))
      with_bytes_table

abbrev integer_type : ℕ → Bool
integer_type w = type_of w == code integer_tag

integer_table :
    agree_below (λ i. as_number (is_integer i)) (λ i. as_number (integer_type i)) 256 ≡ true
unfolding agree_below is_integer has_tag is_inline_symbol is_inline_text is_inline_bytes is_nil
    is_false type_of code
integer_table = refl

is_integer-low : ReadsLowByte is_integer
unfolding is_integer has_tag is_inline_symbol is_inline_text is_inline_bytes is_nil is_false
is_integer-low w = rw (low_byte w 0xFF (omega arith)) refl

is_integer-type_of : (w : ℕ) → is_integer w ≡ integer_type w
is_integer-type_of =
    agree is_integer integer_type is_integer-low
      (λ w. ap (λ (t : ℕ). t == code integer_tag) (type_of-low w)) integer_table

abbrev list_type : ℕ → Bool
list_type w = type_of w == code nil_tag || type_of w == code list_tag

list_table : agree_below (λ i. as_number (is_list i)) (λ i. as_number (list_type i)) 256 ≡ true
unfolding agree_below is_list has_tag is_inline_symbol is_inline_text is_inline_bytes is_nil
    is_false type_of code
list_table = refl

is_list-low : ReadsLowByte is_list
unfolding is_list has_tag is_inline_symbol is_inline_text is_inline_bytes is_nil is_false
is_list-low w = rw (low_byte w 0xFF (omega arith)) refl

is_list-type_of : (w : ℕ) → is_list w ≡ list_type w
is_list-type_of =
    agree is_list list_type is_list-low
      (λ w. ap (λ (t : ℕ). t == code nil_tag || t == code list_tag) (type_of-low w)) list_table

abbrev falsy_type : ℕ → Bool
falsy_type w = type_of w == code nil_tag || type_of w == code false_tag

falsy_table : agree_below (λ i. as_number (is_falsy i)) (λ i. as_number (falsy_type i)) 256 ≡ true
unfolding agree_below is_falsy has_tag is_inline_symbol is_inline_text is_inline_bytes is_nil
    is_false type_of code
falsy_table = refl

is_falsy-low : ReadsLowByte is_falsy
unfolding is_falsy has_tag is_inline_symbol is_inline_text is_inline_bytes is_nil is_false
is_falsy-low w = rw (low_byte w 0xFF (omega arith)) refl

is_falsy-type_of : (w : ℕ) → is_falsy w ≡ falsy_type w
is_falsy-type_of =
    agree is_falsy falsy_type is_falsy-low
      (λ w. ap (λ (t : ℕ). t == code nil_tag || t == code false_tag) (type_of-low w)) falsy_table

abbrev applicable_type : ℕ → Bool
applicable_type w =
    type_of w == code function_tag
    || type_of w == code primitive_tag
    || type_of w == code continuation_tag
    || type_of w == code generator_tag
    || type_of w == code vector_tag
    || type_of w == code table_tag

applicable_table :
    agree_below (λ i. as_number (is_applicable i)) (λ i. as_number (applicable_type i)) 256 ≡ true
unfolding agree_below is_applicable has_tag is_inline_symbol is_inline_text is_inline_bytes is_nil
    is_false type_of code
applicable_table = refl

is_applicable-low : ReadsLowByte is_applicable
unfolding is_applicable has_tag is_inline_symbol is_inline_text is_inline_bytes is_nil is_false
is_applicable-low w = rw (low_byte w 0xFF (omega arith)) refl

is_applicable-type_of : (w : ℕ) → is_applicable w ≡ applicable_type w
is_applicable-type_of =
    agree is_applicable applicable_type is_applicable-low
      (λ w.
        ap
          (λ (t : ℕ).
            t == code function_tag
            || t == code primitive_tag
            || t == code continuation_tag
            || t == code generator_tag
            || t == code vector_tag
            || t == code table_tag)
          (type_of-low w))
      applicable_table

-- The predicates of the C interface against the type of a word.
abbrev pub PredicatesAgree : ℕ → Type 0
PredicatesAgree w =
    (is_symbol w ≡ (type_of w == code symbol_tag))
    × (is_text w ≡ (type_of w == code text_tag))
    × (is_bytes w ≡ (type_of w == code bytes_tag))
    × (has_bytes w ≡ (
        type_of w == code symbol_tag || type_of w == code text_tag || type_of w == code bytes_tag))
    × (is_integer w ≡ (type_of w == code integer_tag))
    × (is_list w ≡ (type_of w == code nil_tag || type_of w == code list_tag))
    × (is_falsy w ≡ (type_of w == code nil_tag || type_of w == code false_tag))
    × (is_applicable w ≡ (
        type_of w == code function_tag
        || type_of w == code primitive_tag
        || type_of w == code continuation_tag
        || type_of w == code generator_tag
        || type_of w == code vector_tag
        || type_of w == code table_tag))

-- The predicates for symbols, text, bytes, byte strings, integers, lists, falsy and applicable
-- values, which read the tag and the inline flag of the word itself, hold exactly on the words of
-- their type or types by `lone_lisp_type_of`, which maps the inline encodings to the canonical tags.
pub predicates-type_of : (w : ℕ) → PredicatesAgree w
predicates-type_of w = (
  is_symbol-type_of w,
  is_text-type_of w,
  is_bytes-type_of w,
  has_bytes-type_of w,
  is_integer-type_of w,
  is_list-type_of w,
  is_falsy-type_of w,
  is_applicable-type_of w,
)
