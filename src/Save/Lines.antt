-- ===== src/Save/Lines.antt =====
-- The loops over the parameters of a plan and the variables of a transcript, on what is printed.
use photesthesis.Shared.{
  ℕ, zero, suc, ◌<◌, ◌≡◌, refl, ◌∙◌, ap, Bool, true, false, List, [], ◌∷◌, ◌++◌, append_assoc,
  append-nil, arith, if◌then◌else◌, length, All, codes, list_eq, ◌==◌, ◌||◌,
}
use photesthesis.Symbol.{Bytes, Symbol}
use photesthesis.Value.{Value}
use photesthesis.Plan.{Params}
use photesthesis.Transcript.{Var}
use photesthesis.Text.Stream.{
  Stream, open_text, peek, peek_rest, is_space, skip_spaces, scan_whitespace,
}
use photesthesis.Text.RoundTrip.{IsPrintable, print_base}
use photesthesis.Save.{loaded}
use photesthesis.Save.Tokens.{read_word, looks_at, expect_str, expect_nonempty}
use photesthesis.Save.Plans.{print_line, print_params, read_params}
use photesthesis.Save.Transcripts.{print_vars, read_vars}
use photesthesis.Save.Reading.{
  IsWord, IsSymbol, read_word-word, line_rest, read_named-line, print_line-append,
}

-- The stream on a text, with the spaces in front passed over.
abbrev pub settled : Bytes → Stream
settled r = scan_whitespace (open_text r)

-- The text does not go on with such a character.
abbrev pub StopsAt : (ℕ → Bool) → Bytes → Type 0
StopsAt p r = looks_at p (settled r) ≡ (false, settled r)

-- What the text of a line keeps.
abbrev pub IsKept : Symbol → Value → Type 0
IsKept name v = IsSymbol name × IsPrintable v

read_keyword :
    (keyword : Bytes) (name : Symbol) (v : Value) (r : Bytes)
    → IsWord keyword
    → read_word (open_text (keyword ++ line_rest name v r))
      ≡ loaded keyword (open_text (line_rest name v r))
read_keyword keyword name v r h = read_word-word keyword 32 _ h (unfold is_space in refl)

param-IsWord : IsWord (codes "param:")
unfolding is_space
param-IsWord = record { black = refl; some_left = refl }

-- A round of the loop over the parameters.
read_params_round :
    (f : ℕ) (acc : Params) (name : Symbol) (v : Value) (r : Bytes)
    → IsKept name v
    → read_params (suc f) acc (settled (codes "param:" ++ line_rest name v r))
      ≡ read_params f (acc ++ ((name, v) ∷ [])) (settled r)
unfolding read_params looks_at peek peek_rest scan_whitespace skip_spaces is_space expect_str
    expect_nonempty list_eq
read_params_round f acc name v r k = rw (
  read_keyword (codes "param:") name v r param-IsWord,
  read_named-line name v r k.0 k.1,
  k.0.some_left,
)

-- The text of a line, of a printable value, and what follows it.
print_params_step :
    (name : Symbol) (v : Value) (ps : Params) (r : Bytes)
    → IsPrintable v
    → (print_params false ((name, v) ∷ ps)).0 ++ r
      ≡ codes "param:" ++ line_rest name v ((print_params false ps).0 ++ r)
unfolding print_params print_line
print_params_step name v ps r p =
    append_assoc (print_line (codes "param:") false name v).0 _ r
    ∙ print_line-append (codes "param:") name v _
    ∙ ap (λ b. codes "param:" ++ line_rest name v ((print_params b ps).0 ++ r)) (print_base v p)

pub read_params-print :
    (ps : Params) (f : ℕ) (acc : Params) (r : Bytes)
    → All (λ p. IsKept p.0 p.1) ps
    → StopsAt (λ c. c == b'p') r
    → length ps < f
    → read_params f acc (settled ((print_params false ps).0 ++ r)) ≡ loaded (acc ++ ps) (settled r)
unfolding read_params print_params
read_params-print ps zero acc r k stop h = absurd (omega (arith, h))
read_params-print [] (suc f) acc r k stop h = rw (stop, append-nil acc)
read_params-print (p ∷ ps) (suc f) acc r k stop h =
    let rest = (print_params false ps).0 ++ r in
    ap (λ x. read_params (suc f) acc (settled x)) (print_params_step p.0 p.1 ps r k.0.1)
    ∙ read_params_round f acc p.0 p.1 rest k.0
    ∙ read_params-print ps f (acc ++ (p ∷ [])) r k.1 stop (omega (arith, h))
    ∙ ap (λ qs. loaded qs (settled r)) (append_assoc acc (p ∷ []) ps)

-- The keyword of a variable.
abbrev pub keyword_of : Bool → Bytes
keyword_of is_tracked = if is_tracked then codes "track:" else codes "check:"

keyword-IsWord : (b : Bool) → IsWord (keyword_of b)
unfolding is_space
keyword-IsWord true = record { black = refl; some_left = refl }
keyword-IsWord false = record { black = refl; some_left = refl }

read_vars_round :
    (f : ℕ) (acc : List Var) (name : Symbol) (v : Value) (b : Bool) (r : Bytes)
    → IsKept name v
    → read_vars (suc f) acc (settled (keyword_of b ++ line_rest name v r))
      ≡ read_vars f (acc ++ ((name, (v, b)) ∷ [])) (settled r)
unfolding read_vars looks_at peek peek_rest scan_whitespace skip_spaces is_space expect_str
    expect_nonempty list_eq
read_vars_round f acc name v true r k = rw (
  read_keyword (codes "track:") name v r (keyword-IsWord true),
  read_named-line name v r k.0 k.1,
  k.0.some_left,
)
read_vars_round f acc name v false r k = rw (
  read_keyword (codes "check:") name v r (keyword-IsWord false),
  read_named-line name v r k.0 k.1,
  k.0.some_left,
)

print_vars_step :
    (name : Symbol) (v : Value) (b : Bool) (xs : List Var) (r : Bytes)
    → IsPrintable v
    → (print_vars false ((name, (v, b)) ∷ xs)).0 ++ r
      ≡ keyword_of b ++ line_rest name v ((print_vars false xs).0 ++ r)
unfolding print_vars print_line
print_vars_step name v b xs r p =
    append_assoc (print_line (keyword_of b) false name v).0 _ r
    ∙ print_line-append (keyword_of b) name v _
    ∙ ap (λ c. keyword_of b ++ line_rest name v ((print_vars c xs).0 ++ r)) (print_base v p)

pub read_vars-print :
    (xs : List Var) (f : ℕ) (acc : List Var) (r : Bytes)
    → All (λ x. IsKept x.0 x.1.0) xs
    → StopsAt (λ c. c == b'c' || c == b't') r
    → length xs < f
    → read_vars f acc (settled ((print_vars false xs).0 ++ r)) ≡ loaded (acc ++ xs) (settled r)
unfolding read_vars print_vars
read_vars-print xs zero acc r k stop h = absurd (omega (arith, h))
read_vars-print [] (suc f) acc r k stop h = rw (stop, append-nil acc)
read_vars-print (x ∷ xs) (suc f) acc r k stop h =
    let rest = (print_vars false xs).0 ++ r in
    ap (λ y. read_vars (suc f) acc (settled y)) (print_vars_step x.0 x.1.0 x.1.1 xs r k.0.1)
    ∙ read_vars_round f acc x.0 x.1.0 x.1.1 rest k.0
    ∙ read_vars-print xs f (acc ++ (x ∷ [])) r k.1 stop (omega (arith, h))
    ∙ ap (λ ys. loaded ys (settled r)) (append_assoc acc (x ∷ []) xs)
