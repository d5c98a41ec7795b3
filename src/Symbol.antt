-- ===== src/Symbol.antt =====
-- src/symbol.cpp and include/photesthesis/symbol.h: symbols and the table that interns them.
-- A text is the list of its bytes. The children prove what the table promises.
pub mod Interning
mod Examples
use photesthesis.Shared.{
  ℕ, ◌+◌, Bool, ◌&&◌, ◌||◌, List, [], ◌∷◌, Option, none, some, leb, ltb, ◌==◌, all_of, list_eq,
  if◌then◌else◌,
}
use photesthesis.Shared.Order.{lex}
use photesthesis.Shared.SetOf.{set_emplace}

-- The bytes of a `std::string`.
abbrev pub Bytes : Type 0
Bytes = List ℕ

-- `std::isdigit` and `std::isalnum` of the "C" locale.
unfoldable pub is_digit : ℕ → Bool
is_digit c = leb b'0' c && leb c b'9'

unfoldable pub is_alnum : ℕ → Bool
unfolding is_digit
is_alnum c = is_digit c || ((leb b'A' c && leb c b'Z') || (leb b'a' c && leb c b'z'))

-- The characters that a symbol may hold.
unfoldable pub is_symbol_char : ℕ → Bool
unfolding is_alnum
is_symbol_char c = is_alnum c || c == b'_'

-- A `std::shared_ptr<std::string>`: an address, and the text that stands there.
pub record StringPtr : Type 0 where
  pub address : ℕ
  pub text : Bytes

-- `operator<` of `std::string`, and the table's comparison of what two pointers point to.
unfoldable pub string_lt : Bytes → Bytes → Bool
string_lt = lex ltb

abbrev pub deref_less : StringPtr → StringPtr → Bool
deref_less x y = string_lt x.text y.text

-- The static table, and the address that the next `make_shared` returns.
pub record InternTable : Type 0 where
  pub entries : List StringPtr
  pub next_address : ℕ

-- What `intern` does under its lock, with the pointer that it has made.
unfoldable pub place : StringPtr → InternTable → StringPtr × InternTable
place p table =
    let placed = set_emplace deref_less p table.entries in
    (placed.0, record { entries = placed.1; next_address = table.next_address + 1 })

-- `Symbol::intern`; `none` is the exception for a text with another character.
unfoldable pub intern : Bytes → InternTable → Option (StringPtr × InternTable)
intern s table =
    if all_of is_symbol_char s
    then some (place (record { address = table.next_address; text = s }) table)
    else none

-- `Symbol::operator==` compares the pointers, `Symbol::operator<` the texts.
unfoldable pub ptr_eq : StringPtr → StringPtr → Bool
ptr_eq a b = a.address == b.address

-- A symbol as the other modules see it: its text. `Symbol.Interning` shows that equality of
-- interned pointers is equality of their texts.
abbrev pub Symbol : Type 0
Symbol = Bytes

unfoldable pub symbol_eq : Symbol → Symbol → Bool
symbol_eq = list_eq (λ a b. a == b)

unfoldable pub symbol_lt : Symbol → Symbol → Bool
unfolding string_lt
symbol_lt = string_lt
