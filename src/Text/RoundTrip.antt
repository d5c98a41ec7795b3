-- ===== src/Text/RoundTrip.antt =====
-- What the printer writes of a value reads back.
use photesthesis.Shared.{
  ℕ, zero, suc, ◌+◌, ◌≤◌, ◌<◌, ◌≡◌, refl, ◌∙◌, true, false, List, [], ◌∷◌, ◌++◌, append_assoc,
  append-nil, arith, ap, sym as path_sym, length, length-append, subst,
}
use photesthesis.Shared.Ints.{IsInt64}
use photesthesis.Symbol.{Bytes}
use photesthesis.Value.{Value, Cells, nil, pair, sym, bool, int64, blob, string, null, cell}
use photesthesis.Value.Lists.{cells_list, of_list-cell}
use photesthesis.Text.Stream.{open_text, is_space}
use photesthesis.Text.Printer.{print_value, print_cells, print_int}
use photesthesis.Text.Parser.{ok, ◌>>=◌, parse_value, parse_items, close_list}
use photesthesis.Text.Steps.{
  Ends, IsName, starts_item, parse_space, parse_list, parse_items_round, parse_items_end,
  close_list_lem, parse_string, parse_true, parse_false, parse_nil, parse_int64, parse_symbol,
  parse_empty_blob, starts_item-default, starts_default-name, starts_default-int,
}

space-Ends : Ends 32
unfolding is_space
space-Ends = refl

-- The values that the textual form keeps: symbols that read as symbols, integers of 64 bits, no blob
-- but the empty one.
unfoldable mutual
  pub IsPrintable : Value → Type 0
  IsPrintable nil = Unit
  IsPrintable (pair h t) = IsPrintable h × ArePrintable t
  IsPrintable (sym s) = IsName s
  IsPrintable (bool b) = Unit
  IsPrintable (int64 i) = IsInt64 i
  IsPrintable (blob b) = b ≡ []
  IsPrintable (string s) = Unit

  pub ArePrintable : Cells → Type 0
  ArePrintable null = Unit
  ArePrintable (cell h t) = IsPrintable h × ArePrintable t

-- Such values leave the stream's base alone.
mutual
  unfolding print_value IsPrintable

  pub print_base : (v : Value) → IsPrintable v → (print_value false v).1 ≡ false
  print_base nil p = refl
  print_base (pair h t) p = rw (print_base h p.0) (print_cells_base t p.1)
  print_base (sym s) p = refl
  print_base (bool true) p = refl
  print_base (bool false) p = refl
  print_base (int64 i) p = refl
  print_base (blob []) p = refl
  print_base (blob (c ∷ r)) p = cc
  print_base (string s) p = refl

  print_cells_base : (t : Cells) → ArePrintable t → (print_cells false t).1 ≡ false
  print_cells_base null p = refl
  print_cells_base (cell h t) p = rw (print_base h p.0) (print_cells_base t p.1)

abbrev pub text_of : Value → Bytes
text_of v = (print_value false v).0

abbrev pub cells_text : Cells → Bytes
cells_text t = (print_cells false t).0

-- No printed value looks like the end of a list, and none is empty.
starts_item-text : (v : Value) (r : Bytes) → IsPrintable v → starts_item (text_of v ++ r) ≡ true
unfolding print_value IsPrintable
starts_item-text nil r p = refl
starts_item-text (pair h t) r p = refl
starts_item-text (sym s) r p = starts_item-default (s ++ r) (starts_default-name s r p)
starts_item-text (bool true) r p = refl
starts_item-text (bool false) r p = refl
starts_item-text (int64 i) r p =
    starts_item-default (print_int false i ++ r) (starts_default-int i r)
starts_item-text (blob []) r p = refl
starts_item-text (blob (c ∷ b)) r p = cc
starts_item-text (string s) r p = refl

length_of_starts : (s : Bytes) → starts_item s ≡ true → 0 < length s
length_of_starts [] h = cc
length_of_starts (c ∷ s) h = omega arith

length-text_pos : (v : Value) → IsPrintable v → 0 < length (text_of v)
length-text_pos v p =
    length_of_starts (text_of v)
      (subst (λ s. starts_item s ≡ true) (append-nil (text_of v)) (starts_item-text v [] p))

-- The text of a list, with what stands behind it.
text-pair :
    (h : Value) (t : Cells) (s : Bytes)
    → IsPrintable h
    → text_of (pair h t) ++ s ≡ b'(' ∷ (text_of h ++ (cells_text t ++ (b')' ∷ s)))
unfolding print_value
text-pair h t s p = rw (print_base h p) (simp append_assoc)

text-cell :
    (h : Value) (t : Cells) (s : Bytes)
    → IsPrintable h
    → cells_text (cell h t) ++ s ≡ 32 ∷ (text_of h ++ (cells_text t ++ s))
unfolding print_value
text-cell h t s p = rw (print_base h p) (simp append_assoc)

-- What follows an element of a list ends it.
cells_text-Ends :
    (t : Cells) (s : Bytes)
    → ArePrintable t
    → (c : ℕ) × (r : Bytes) × (cells_text t ++ (b')' ∷ s) ≡ c ∷ r) × Ends c
unfolding IsPrintable print_value is_space
cells_text-Ends null s p = (b')', s, refl, refl)
cells_text-Ends (cell h t) s p = (32, _, text-cell h t (b')' ∷ s) p.0, refl)

-- The parser reads a value off its text, whatever variable it reads into.
abbrev ReadsBack : Value → Type 0
ReadsBack v =
    (val : Value) (f c : ℕ) (r : Bytes)
    → length (text_of v) ≤ f
    → Ends c
    → parse_value f val (open_text (text_of v ++ c ∷ r)) ≡ ok v (open_text (c ∷ r))

abbrev CellsReadBack : Cells → Type 0
CellsReadBack t =
    (f : ℕ) (acc : List Value) (s : Bytes)
    → 1 + length (cells_text t) ≤ f
    → parse_items f acc (open_text (cells_text t ++ (b')' ∷ s)))
      ≡ ok (acc ++ cells_list t) (open_text (b')' ∷ s))

-- One element, and the rest of the list behind it.
read_item :
    (h : Value) (t : Cells)
    → IsPrintable h
    → ArePrintable t
    → ReadsBack h
    → CellsReadBack t
    → (f : ℕ) (acc : List Value) (s : Bytes) → length (text_of h) + length (cells_text t) ≤ f
    → (parse_value f nil (open_text (text_of h ++ (cells_text t ++ (b')' ∷ s)))) >>= λ v u.
        parse_items f (acc ++ (v ∷ [])) u)
      ≡ ok (acc ++ (h ∷ cells_list t)) (open_text (b')' ∷ s))
read_item h t ph pt head others f acc s enough =
    let (c, r, e, ends) = cells_text-Ends t s pt in
    let first : parse_value f nil (open_text (text_of h ++ (cells_text t ++ (b')' ∷ s))))
        ≡ ok h (open_text (cells_text t ++ (b')' ∷ s))) =
      subst (λ u. parse_value f nil (open_text (text_of h ++ u)) ≡ ok h (open_text u)) (path_sym e)
        (head nil f c r (omega arith) ends) in
    rw first (
      others f (acc ++ (h ∷ [])) s (omega (arith, length-text_pos h ph))
      ∙ ap (λ u. ok u (open_text (b')' ∷ s))) (append_assoc acc (h ∷ []) (cells_list t)))

length-pair :
    (h : Value) (t : Cells)
    → IsPrintable h
    → length (text_of (pair h t)) ≡ 2 + (length (text_of h) + length (cells_text t))
unfolding print_value
length-pair h t p = rw (print_base h p) (
    omega (
      arith,
      length-append (text_of h) (cells_text t ++ (b')' ∷ [])),
      length-append (cells_text t) (b')' ∷ []),
    ))

length-cell :
    (h : Value) (t : Cells)
    → IsPrintable h
    → length (cells_text (cell h t)) ≡ 1 + (length (text_of h) + length (cells_text t))
unfolding print_value
length-cell h t p = rw (print_base h p) (omega (arith, length-append (text_of h) (cells_text t)))

module _ (h : Value) (t : Cells) (ph : IsPrintable h) (pt : ArePrintable t) (head : ReadsBack h)
    (others : CellsReadBack t) where
  read_pair : ReadsBack (pair h t)
  read_pair val zero c r enough ends = absurd (omega (arith, length-pair h t ph))
  read_pair val (suc zero) c r enough ends = absurd (omega (arith, length-pair h t ph))
  read_pair val (suc (suc f)) c r enough ends = rw (text-pair h t (c ∷ r) ph) (
      parse_list (suc f) val (text_of h ++ (cells_text t ++ (b')' ∷ c ∷ r)))
      ∙ ap (λ m. m >>= close_list)
          (parse_items_round f [] (text_of h ++ (cells_text t ++ (b')' ∷ c ∷ r)))
              (starts_item-text h _ ph)
            ∙ read_item h t ph pt head others f [] (c ∷ r) (omega (arith, length-pair h t ph)))
      ∙ close_list_lem (h ∷ cells_list t) (c ∷ r)
      ∙ ap (λ v. ok v (open_text (c ∷ r))) (of_list-cell h t))

  read_cell : CellsReadBack (cell h t)
  unfolding cells_list
  read_cell zero acc s enough = absurd (omega (arith, length-cell h t ph))
  read_cell (suc zero) acc s enough = absurd (omega (arith, length-cell h t ph))
  read_cell (suc (suc f)) acc s enough = rw (text-cell h t (b')' ∷ s) ph) (
      parse_items_round (suc f) acc (32 ∷ (text_of h ++ (cells_text t ++ (b')' ∷ s)))) refl
      ∙ ap (λ m. m >>= λ v u. parse_items (suc f) (acc ++ (v ∷ [])) u)
          (parse_space f nil (text_of h ++ (cells_text t ++ (b')' ∷ s))))
      ∙ read_item h t ph pt head others (suc f) acc s (omega (arith, length-cell h t ph)))

-- An atom's text is read by one call, which takes one unit of fuel.
read_atom :
    (v : Value)
    → IsPrintable v
    → ((val : Value) (f c : ℕ) (r : Bytes)
        → Ends c
        → parse_value (suc f) val (open_text (text_of v ++ c ∷ r)) ≡ ok v (open_text (c ∷ r)))
    → ReadsBack v
read_atom v p step val zero c r enough ends = absurd (omega (arith, length-text_pos v p))
read_atom v p step val (suc f) c r enough ends = step val f c r ends

read_null : CellsReadBack null
unfolding print_value cells_list
read_null zero acc s enough = absurd (omega arith)
read_null (suc f) acc s enough = rw append-nil (parse_items_end f acc s)

mutual
  unfolding IsPrintable print_value cells_list

  read_back : (v : Value) → IsPrintable v → ReadsBack v
  read_back nil p = read_atom nil p (λ val f c r e. parse_nil f val c r e)
  read_back (pair h t) p = read_pair h t p.0 p.1 (read_back h p.0) (read_cells t p.1)
  read_back (sym s) p = read_atom (sym s) p (λ val f c r e. parse_symbol f val s c r p e)
  read_back (bool true) p = read_atom (bool true) p (λ val f c r e. parse_true f val c r e)
  read_back (bool false) p = read_atom (bool false) p (λ val f c r e. parse_false f val c r e)
  read_back (int64 i) p = read_atom (int64 i) p (λ val f c r e. parse_int64 f val i c r p e)
  read_back (blob []) p = read_atom (blob []) p (λ val f c r e. parse_empty_blob f val (c ∷ r))
  read_back (blob (x ∷ b)) p = cc
  read_back (string s) p =
      read_atom (string s) p (λ val f c r e. rw append_assoc (parse_string f val s (c ∷ r)))

  read_cells : (t : Cells) → ArePrintable t → CellsReadBack t
  read_cells null p = read_null
  read_cells (cell h t) p = read_cell h t p.0 p.1 (read_back h p.0) (read_cells t p.1)

-- A printable value reads back from its text, into any variable, wherever a space or the end of a
-- list follows: the parser stops right behind it, leaves the stream good, and needs no more fuel than
-- the text has characters.
pub parse_value-print_value :
    (v val : Value) (f c : ℕ) (r : Bytes)
    → IsPrintable v
    → length (print_value false v).0 ≤ f
    → Ends c
    → parse_value f val (open_text ((print_value false v).0 ++ c ∷ r)) ≡ ok v (open_text (c ∷ r))
parse_value-print_value v val f c r p enough ends = read_back v p val f c r enough ends

-- No two printable values have one text.
pub print_value-injective :
    (v w : Value)
    → IsPrintable v
    → IsPrintable w
    → (print_value false v).0 ≡ (print_value false w).0
    → v ≡ w
print_value-injective v w p q e =
    let f = length (text_of v) in
    let a = parse_value-print_value v nil f 32 [] p (omega arith) space-Ends in
    let b = parse_value-print_value w nil f 32 [] q (omega (arith, ap length e)) space-Ends in
    cc (a, b, ap (λ s. parse_value f nil (open_text (s ++ 32 ∷ []))) e)
