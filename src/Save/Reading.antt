-- ===== src/Save/Reading.antt =====
-- What the readers of src/corpus.cpp give on the texts that its printers write.
use photesthesis.Shared.{
  ℕ, suc, ◌+◌, ◌≡◌, refl, ◌∙◌, ap, Bool, true, false, not, [], ◌∷◌, ◌++◌, append_assoc, arith,
  length, length-append, all_of, codes,
}
use photesthesis.Symbol.{Bytes, Symbol, is_symbol_char, is_alnum, is_digit}
use photesthesis.Value.{Value, nil}
use photesthesis.Text.Stream.{open_text, is_space, skip_spaces, is_end}
use photesthesis.Text.Printer.{print_value}
use photesthesis.Text.Steps.{Ends, take_run-append, parse_space}
use photesthesis.Text.RoundTrip.{IsPrintable, parse_value-print_value}
use photesthesis.Save.{loaded, from_parsed}
use photesthesis.Save.Tokens.{read_word, read_symbol, read_value}
use photesthesis.Save.Plans.{print_line, read_named}

abbrev pub is_black : ℕ → Bool
is_black c = not (is_space c)

-- A word: not empty, and without a space.
pub record IsWord (w : Bytes) : Type 0 where
  pub black : all_of is_black w ≡ true
  pub some_left : is_end w ≡ false

skip_spaces-word : (w r : Bytes) → IsWord w → skip_spaces (w ++ r) ≡ (w ++ r, false)
unfolding skip_spaces
skip_spaces-word [] r h = absurd (ground (arith, h.some_left))
skip_spaces-word (c ∷ w) r h = ground (arith, h.black)

pub read_word-word :
    (w : Bytes) (c : ℕ) (r : Bytes)
    → IsWord w
    → is_space c ≡ true
    → read_word (open_text (w ++ c ∷ r)) ≡ loaded w (open_text (c ∷ r))
unfolding read_word
read_word-word w c r h e =
    rw (
      skip_spaces-word w (c ∷ r) h,
      take_run-append is_black w r c h.black (rw e refl),
      h.some_left,
    )

-- A space in front of a word is passed over.
pub read_word-space :
    (c : ℕ) (r : Bytes)
    → is_space c ≡ true
    → read_word (open_text (c ∷ r)) ≡ read_word (open_text r)
unfolding read_word skip_spaces
read_word-space c r e = rw e

-- A name of a symbol.
pub record IsSymbol (s : Symbol) : Type 0 where
  pub legal : all_of is_symbol_char s ≡ true
  pub some_left : is_end s ≡ false

symbol_black : (c : ℕ) → is_symbol_char c ≡ true → is_black c ≡ true
unfolding is_symbol_char is_alnum is_digit is_space
symbol_black c h = ground (arith, h)

all_black : (s : Bytes) → all_of is_symbol_char s ≡ true → all_of is_black s ≡ true
all_black [] h = refl
all_black (c ∷ s) h = ground (arith, h, symbol_black c, all_black s)

pub symbol-IsWord : (s : Symbol) → IsSymbol s → IsWord s
symbol-IsWord s h = record { black = all_black s h.legal; some_left = h.some_left }

pub read_symbol-name :
    (s : Symbol) (c : ℕ) (r : Bytes)
    → IsSymbol s
    → is_space c ≡ true
    → read_symbol (open_text (32 ∷ s ++ c ∷ r)) ≡ loaded s (open_text (c ∷ r))
unfolding read_symbol
read_symbol-name s c r h e = rw (
  read_word-space 32 (s ++ c ∷ r) (unfold is_space in refl),
  read_word-word s c r (symbol-IsWord s h) e,
  h.legal,
)

newline-Ends : Ends 10
unfolding is_space
newline-Ends = refl

-- The value of a line.
pub read_value-line :
    (v : Value) (r : Bytes)
    → IsPrintable v
    → read_value (open_text (32 ∷ (print_value false v).0 ++ 10 ∷ r))
      ≡ loaded v (open_text (10 ∷ r))
unfolding read_value
read_value-line v r p =
    let text = (print_value false v).0 in
    let size = length (text ++ 10 ∷ r) in
    let left = suc size + suc size in
    ap from_parsed (
      parse_space left nil (text ++ 10 ∷ r)
      ∙ parse_value-print_value v nil (suc left) 10 r p (omega (arith, length-append text (10 ∷ r)))
          newline-Ends)

equals-IsWord : IsWord (codes "=")
unfolding is_space
equals-IsWord = record { black = refl; some_left = refl }

-- What stands behind the keyword of a line.
abbrev pub line_rest : Symbol → Value → Bytes → Bytes
line_rest name v r = 32 ∷ name ++ (32 ∷ 61 ∷ 32 ∷ (print_value false v).0 ++ 10 ∷ r)

pub read_named-line :
    (name : Symbol) (v : Value) (r : Bytes)
    → IsSymbol name
    → IsPrintable v
    → read_named (open_text (line_rest name v r))
      ≡ loaded (name, (codes "=", v)) (open_text (10 ∷ r))
unfolding read_named
read_named-line name v r n p =
    let after = 32 ∷ (print_value false v).0 ++ 10 ∷ r in
    rw (
      read_symbol-name name 32 (61 ∷ after) n space,
      read_word-space 32 (61 ∷ after) space,
      read_word-word (codes "=") 32 ((print_value false v).0 ++ 10 ∷ r) equals-IsWord space,
      read_value-line v r p,
    )
  where
    space : is_space 32 ≡ true
    space = unfold is_space in refl

pub print_line-append :
    (keyword : Bytes) (name : Symbol) (v : Value) (r : Bytes)
    → (print_line keyword false name v).0 ++ r ≡ keyword ++ line_rest name v r
unfolding print_line
print_line-append keyword name v r =
    append_assoc keyword _ r
    ∙ ap (λ x. keyword ++ (32 ∷ x))
        (append_assoc name _ r
          ∙ ap (λ x. name ++ (32 ∷ 61 ∷ 32 ∷ x)) (append_assoc (print_value false v).0 (10 ∷ []) r))
