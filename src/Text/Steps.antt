-- ===== src/Text/Steps.antt =====
-- One step of the parser at each kind of text, and the pieces of the printer read back.
use photesthesis.Shared.{
  ℕ, suc, ◌≡◌, refl, ◌∙◌, Bool, true, false, not, ◌&&◌, ◌||◌, List, [], ◌∷◌, ◌++◌, append_assoc,
  append-nil, some, arith, Bool-cases, inl, inr, ◌==◌, all_of, codes, ap, list_eq,
}
use mathlib.Core.Bool.{false≢true}
use photesthesis.Shared.Ints.{ℤ, pos, negsuc, IsInt64}
use photesthesis.Symbol.{Bytes, is_digit, is_alnum, is_symbol_char}
use photesthesis.Value.{Value, nil, sym, bool, int64, blob, string, of_list}
use photesthesis.Text.Stream.{
  Stream, open_text, peek, peek_rest, is_space, skip_spaces, scan_whitespace, take_run, is_end,
}
use photesthesis.Text.Digits.{digit_value}
use photesthesis.Text.Numbers.{EndsNumber, starts_digit, starts_digit-digits, read_int64-print_int}
use photesthesis.Text.Printer.{print_int, escape}
use photesthesis.Text.Parser.{
  ok, ◌>>=◌, parse_value, parse_items, parse_default, parse_special, finish_special, special,
  read_string, read_int64, close_list, read_blob,
}

-- What may stand behind a printed value: a space, or the end of a list.
abbrev pub Ends : ℕ → Type 0
Ends c = (is_space c || c == b')') ≡ true

Ends-number : (c : ℕ) → Ends c → EndsNumber c
unfolding is_space digit_value
Ends-number c h = ground arith

Ends-symbol : (c : ℕ) → Ends c → is_symbol_char c ≡ false
unfolding is_space is_symbol_char is_alnum is_digit
Ends-symbol c h = ground arith

Ends-alnum : (c : ℕ) → Ends c → is_alnum c ≡ false
unfolding is_space is_alnum is_digit
Ends-alnum c h = ground arith

-- A space in front of a value is passed over.
pub parse_space :
    (f : ℕ) (val : Value) (s : Bytes)
    → parse_value (suc f) val (open_text (32 ∷ s)) ≡ parse_value (suc f) val (open_text s)
unfolding parse_value scan_whitespace skip_spaces is_space
parse_space f val s = refl

pub parse_list :
    (f : ℕ) (val : Value) (s : Bytes)
    → parse_value (suc f) val (open_text (b'(' ∷ s))
      ≡ (parse_items f [] (open_text s) >>= close_list)
unfolding parse_value scan_whitespace skip_spaces is_space
parse_list f val s = refl

-- The rounds of the loop over a list.
abbrev pub starts_item : Bytes → Bool
starts_item [] = false
starts_item (c ∷ r) = not (c == b')')

pub parse_items_round :
    (f : ℕ) (acc : List Value) (s : Bytes)
    → starts_item s ≡ true
    → parse_items (suc f) acc (open_text s)
      ≡ (parse_value f nil (open_text s) >>= λ v u. parse_items f (acc ++ (v ∷ [])) u)
unfolding parse_value
parse_items_round f acc [] h = cc
parse_items_round f acc (c ∷ r) h = elim (Bool-cases (c == b')')) [ inl e ↦ cc | inr e ↦ rw e ]

pub parse_items_end :
    (f : ℕ) (acc : List Value) (r : Bytes)
    → parse_items (suc f) acc (open_text (b')' ∷ r)) ≡ ok acc (open_text (b')' ∷ r))
unfolding parse_value
parse_items_end f acc r = refl

pub close_list_lem :
    (vals : List Value) (r : Bytes)
    → close_list vals (open_text (b')' ∷ r)) ≡ ok (of_list vals) (open_text r)
unfolding close_list
close_list_lem vals r = refl

-- Strings: a plain character, an escaped one, and the whole.
read_plain :
    (c last : ℕ) (acc s : Bytes) (t : Stream)
    → (c == b'"' || c == b'\\') ≡ false
    → read_string last acc (c ∷ s) t ≡ read_string c (acc ++ (c ∷ [])) s t
unfolding read_string
read_plain c last acc [] t h = ground arith
read_plain c last acc (d ∷ s) t h = ground arith

read_escaped :
    (c last : ℕ) (acc s : Bytes) (t : Stream)
    → read_string last acc (b'\\' ∷ c ∷ s) t ≡ read_string c (acc ++ (c ∷ [])) s t
unfolding read_string
read_escaped c last acc s t = refl

read_quote :
    (last : ℕ) (acc r : Bytes) (t : Stream)
    → read_string last acc (b'"' ∷ r) t ≡ ok (string acc) (record t { rest = r })
unfolding read_string
read_quote last acc [] t = refl
read_quote last acc (d ∷ r) t = refl

read_string-escape :
    (s : Bytes) (last : ℕ) (acc : Bytes) (r : Bytes) (t : Stream)
    → read_string last acc (escape s ++ (b'"' ∷ r)) t
      ≡ ok (string (acc ++ s)) (record t { rest = r })
unfolding escape
read_string-escape [] last acc r t = rw append-nil (read_quote last acc r t)
read_string-escape (c ∷ s) last acc r t =
    let rest : read_string c (acc ++ (c ∷ [])) (escape s ++ (b'"' ∷ r)) t
        ≡ ok (string (acc ++ (c ∷ s))) (record t { rest = r }) =
      read_string-escape s c (acc ++ (c ∷ [])) r t
      ∙ ap (λ (u : Bytes). ok (string u) (record t { rest = r })) (append_assoc acc (c ∷ []) s) in
    elim (Bool-cases (c == b'"' || c == b'\\')) [
      | inl e ↦ rw e (read_escaped c last acc (escape s ++ (b'"' ∷ r)) t ∙ rest)
      | inr e ↦ rw e (read_plain c last acc (escape s ++ (b'"' ∷ r)) t e ∙ rest)
    ]

pub parse_string :
    (f : ℕ) (val : Value) (s r : Bytes)
    → parse_value (suc f) val (open_text (b'"' ∷ (escape s ++ (b'"' ∷ r))))
      ≡ ok (string s) (open_text r)
unfolding parse_value scan_whitespace skip_spaces is_space
parse_string f val s r = read_string-escape s b'"' [] r _

pub parse_empty_blob :
    (f : ℕ) (val : Value) (r : Bytes)
    → parse_value (suc f) val (open_text (codes "[]" ++ r)) ≡ ok (blob []) (open_text r)
unfolding parse_value scan_whitespace skip_spaces is_space read_blob
parse_empty_blob f val r = refl

-- The specials, which end where no letter or digit follows; the fall-through then finds nothing.
parse_default_end :
    (val : Value) (c : ℕ) (r : Bytes)
    → Ends c
    → parse_default val (open_text (c ∷ r)) ≡ (val, open_text (c ∷ r))
unfolding parse_default peek peek_rest is_space is_digit is_alnum
parse_default_end val c r h = ground arith

take_run_end : (p : ℕ → Bool) (c : ℕ) (r : Bytes) → p c ≡ false → take_run p (c ∷ r) ≡ ([], c ∷ r)
unfolding take_run
take_run_end p c r h = rw h

pub take_run-append :
    (p : ℕ → Bool) (s r : Bytes) (c : ℕ)
    → all_of p s ≡ true
    → p c ≡ false
    → take_run p (s ++ c ∷ r) ≡ (s, c ∷ r)
unfolding take_run
take_run-append p [] r c h e = rw e
take_run-append p (x ∷ s) r c h e = ground (arith, take_run-append p s r c)

parse_special_end :
    (name : Bytes) (v : Value) (c : ℕ) (r : Bytes)
    → all_of is_alnum name ≡ true
    → special (b'#' ∷ name) ≡ some v
    → Ends c
    → parse_special (name ++ c ∷ r) (open_text (b'#' ∷ (name ++ c ∷ r))) ≡ ok v (open_text (c ∷ r))
unfolding parse_special finish_special
parse_special_end name v c r legal known ends =
    ap
      (λ (run : Bytes × Bytes).
        finish_special (b'#' ∷ run.0) (special (b'#' ∷ run.0))
          (record (open_text run.1) { eof = is_end run.1 }))
      (take_run-append is_alnum name r c legal (Ends-alnum c ends))
    ∙ ap (λ o. finish_special (b'#' ∷ name) o (open_text (c ∷ r))) known
    ∙ ap (λ (p : Value × Stream). ok p.0 p.1) (parse_default_end v c r ends)

parse_special_lem :
    (name : Bytes) (v val : Value) (f c : ℕ) (r : Bytes)
    → all_of is_alnum name ≡ true
    → special (b'#' ∷ name) ≡ some v
    → Ends c
    → parse_value (suc f) val (open_text (b'#' ∷ (name ++ c ∷ r))) ≡ ok v (open_text (c ∷ r))
unfolding parse_value scan_whitespace skip_spaces is_space
parse_special_lem name v val f c r legal known ends = parse_special_end name v c r legal known ends

pub parse_true :
    (f : ℕ) (val : Value) (c : ℕ) (r : Bytes)
    → Ends c
    → parse_value (suc f) val (open_text (codes "#t" ++ c ∷ r)) ≡ ok (bool true) (open_text (c ∷ r))
unfolding is_alnum is_digit special list_eq
parse_true f val c r = parse_special_lem (codes "t") (bool true) val f c r refl refl

pub parse_false :
    (f : ℕ) (val : Value) (c : ℕ) (r : Bytes)
    → Ends c
    → parse_value (suc f) val (open_text (codes "#f" ++ c ∷ r))
      ≡ ok (bool false) (open_text (c ∷ r))
unfolding is_alnum is_digit special list_eq
parse_false f val c r = parse_special_lem (codes "f") (bool false) val f c r refl refl

pub parse_nil :
    (f : ℕ) (val : Value) (c : ℕ) (r : Bytes)
    → Ends c
    → parse_value (suc f) val (open_text (codes "#nil" ++ c ∷ r)) ≡ ok nil (open_text (c ∷ r))
unfolding is_alnum is_digit special list_eq
parse_nil f val c r = parse_special_lem (codes "nil") nil val f c r refl refl

-- Numbers and symbols, in the default case.
abbrev pub starts_default : Bytes → Bool
starts_default [] = false
starts_default (c ∷ r) = c == b'-' || (c == b'_' || is_alnum c)

parse_other :
    (f : ℕ) (val : Value) (s : Bytes)
    → starts_default s ≡ true
    → parse_value (suc f) val (open_text s)
      ≡ ok (parse_default val (open_text s)).0 (parse_default val (open_text s)).1
unfolding parse_value scan_whitespace skip_spaces is_space is_alnum is_digit
parse_other f val [] h = cc
parse_other f val (c ∷ r) h = ground arith

abbrev starts_minus : Bytes → Bool
starts_minus [] = false
starts_minus (c ∷ r) = c == b'-'

starts-print_int :
    (i : ℤ) (r : Bytes)
    → (starts_digit (print_int false i ++ r) || starts_minus (print_int false i ++ r)) ≡ true
unfolding print_int starts_digit is_digit
starts-print_int (pos n) r = ground (arith, starts_digit-digits n n r)
starts-print_int (negsuc n) r = refl

starts_default-number :
    (s : Bytes) → (starts_digit s || starts_minus s) ≡ true → starts_default s ≡ true
unfolding starts_digit is_alnum
starts_default-number [] h = cc
starts_default-number (c ∷ r) h = ground arith

-- The first character is a letter or `_`.
abbrev pub starts_name : Bytes → Bool
starts_name [] = false
starts_name (c ∷ r) = is_symbol_char c && not (is_digit c)

default_number :
    (val : Value) (s : Bytes)
    → (starts_digit s || starts_minus s) ≡ true
    → parse_default val (open_text s)
      ≡ (int64 (read_int64 (open_text s)).0, (read_int64 (open_text s)).1)
unfolding parse_default peek peek_rest starts_digit
default_number val [] h = cc
default_number val (c ∷ r) h = ground arith

pub parse_int64 :
    (f : ℕ) (val : Value) (i : ℤ) (c : ℕ) (r : Bytes)
    → IsInt64 i
    → Ends c
    → parse_value (suc f) val (open_text (print_int false i ++ c ∷ r))
      ≡ ok (int64 i) (open_text (c ∷ r))
parse_int64 f val i c r fits ends =
    let s = print_int false i ++ c ∷ r in
    parse_other f val s (starts_default-number s (starts-print_int i (c ∷ r)))
    ∙ ap (λ (p : Value × Stream). ok p.0 p.1)
        (default_number val s (starts-print_int i (c ∷ r))
          ∙ ap (λ (p : ℤ × Stream). (int64 p.0, p.1))
              (read_int64-print_int i c r fits (Ends-number c ends)))

-- A symbol that reads back: not empty, of legal characters, the first of them no digit.
pub record IsName (s : Bytes) : Type 0 where
  pub legal : all_of is_symbol_char s ≡ true
  pub starts : starts_name s ≡ true

pub starts_default-name : (s r : Bytes) → IsName s → starts_default (s ++ r) ≡ true
unfolding is_symbol_char
starts_default-name [] r n = absurd (false≢true n.starts)
starts_default-name (c ∷ s) r n = ground (arith, n.starts)

name_char :
    (x : ℕ)
    → (is_symbol_char x && not (is_digit x)) ≡ true
    → ((x == b'-' || is_digit x) ≡ false) × ((x == b'_' || is_alnum x) ≡ true)
unfolding is_symbol_char is_alnum is_digit
name_char x h = ground arith

default_symbol :
    (val : Value) (s : Bytes) (c : ℕ) (r : Bytes)
    → IsName s
    → Ends c
    → parse_default val (open_text (s ++ c ∷ r)) ≡ (sym s, open_text (c ∷ r))
unfolding parse_default peek peek_rest
default_symbol val [] c r n ends = absurd (false≢true n.starts)
default_symbol val (x ∷ s) c r n ends =
    let first = name_char x n.starts in
    rw (take_run-append is_symbol_char (x ∷ s) r c n.legal (Ends-symbol c ends))
      (rw (first.0, first.1))

pub parse_symbol :
    (f : ℕ) (val : Value) (s : Bytes) (c : ℕ) (r : Bytes)
    → IsName s
    → Ends c
    → parse_value (suc f) val (open_text (s ++ c ∷ r)) ≡ ok (sym s) (open_text (c ∷ r))
parse_symbol f val s c r n ends =
    parse_other f val (s ++ c ∷ r) (starts_default-name s (c ∷ r) n)
    ∙ ap (λ (p : Value × Stream). ok p.0 p.1) (default_symbol val s c r n ends)

-- Neither begins like the end of a list.
pub starts_item-default : (s : Bytes) → starts_default s ≡ true → starts_item s ≡ true
unfolding is_alnum is_digit
starts_item-default [] h = cc
starts_item-default (c ∷ r) h = ground arith

pub starts_default-int : (i : ℤ) (r : Bytes) → starts_default (print_int false i ++ r) ≡ true
starts_default-int i r = starts_default-number _ (starts-print_int i r)
