-- ===== src/Save/Plans.antt =====
-- `operator<<` and `operator>>` of a plan, in src/corpus.cpp.
use photesthesis.Shared.{ℕ, zero, suc, Bool, List, [], ◌∷◌, ◌++◌, ◌==◌, if◌then◌else◌, codes}
use photesthesis.Symbol.{Bytes, Symbol}
use photesthesis.Value.{Value}
use photesthesis.Plan.{Plan, Params}
use photesthesis.Text.Stream.{Stream, scan_whitespace, is_end}
use photesthesis.Text.Printer.{print_value}
use photesthesis.Save.{Loaded, loaded, starved, ◌>>=◌}
use photesthesis.Save.Tokens.{
  read_word, read_symbol, read_value, read_ws, read_line, looks_at, drop_char, expect_str,
  expect_nonempty,
}

unfoldable pub print_comments : List Bytes → Bytes
print_comments [] = []
print_comments (c ∷ cs) = codes "# " ++ (c ++ (10 ∷ print_comments cs))

-- A line with a keyword, a name and a value, and the base of the stream after it.
unfoldable pub print_line : Bytes → Bool → Symbol → Value → Bytes × Bool
unfolding print_value
print_line keyword hex name v =
    let printed = print_value hex v in
    (keyword ++ (32 ∷ (name ++ (codes " = " ++ (printed.0 ++ (10 ∷ []))))), printed.1)

unfoldable pub print_params : Bool → Params → Bytes × Bool
unfolding print_line
print_params hex [] = ([], hex)
print_params hex (p ∷ ps) =
    let line = print_line (codes "param:") hex p.0 p.1 in
    let others = print_params line.1 ps in (line.0 ++ others.0, others.1)

-- `operator<<`, from a base, and the base after it.
unfoldable pub print_plan : Bool → Plan → Bytes × Bool
unfolding print_comments print_params
print_plan hex plan =
    let params = print_params hex plan.params in
    (print_comments plan.comments ++ params.0, params.1)

-- The two loops of `operator>>`; a round costs a unit of fuel.
unfoldable pub read_comments : ℕ → List Bytes → Stream → Loaded (List Bytes)
unfolding looks_at read_line scan_whitespace drop_char
read_comments zero acc s = starved
read_comments (suc f) acc s =
    let found = looks_at (λ c. c == b'#') s in
    let more = read_line (scan_whitespace (drop_char found.1)) >>= λ line t.
    read_comments f (if is_end line then acc else acc ++ (line ∷ [])) (scan_whitespace t) in
    if found.0 then more else loaded acc found.1

-- What stands behind the keyword of a line: the name, and the value with the `=` that was read.
unfoldable pub read_named : Stream → Loaded (Symbol × (Bytes × Value))
unfolding read_symbol read_word read_value
read_named s = read_symbol s >>= λ name s₁.
    read_word s₁ >>= λ eq s₂. read_value s₂ >>= λ v s₃. loaded (name, (eq, v)) s₃

unfoldable pub read_params : ℕ → Params → Stream → Loaded Params
unfolding looks_at read_word read_named expect_str expect_nonempty scan_whitespace
read_params zero acc s = starved
read_params (suc f) acc s =
    let found = looks_at (λ c. c == b'p') s in
    let more = read_word found.1 >>= λ keyword s₁. read_named s₁ >>= λ line s₂.
    expect_str (codes "param:") keyword s₂ >>= λ _ s₃.
    expect_str (codes "=") line.1.0 s₃ >>= λ _ s₄. expect_nonempty line.0 s₄ >>= λ _ s₅.
    read_params f (acc ++ ((line.0, line.1.1) ∷ [])) (scan_whitespace s₅) in
    if found.0 then more else loaded acc found.1

-- `operator>>`; a round takes a character at least, so that fuel for each one is enough.
unfoldable pub read_plan : ℕ → Plan → Stream → Loaded Plan
unfolding read_ws read_comments read_params
read_plan fuel plan s = read_ws s >>= λ _ s₁. read_comments fuel [] s₁ >>= λ comments s₂.
    read_params fuel [] s₂ >>= λ params s₃.
    loaded (record plan { comments = comments; params = params }) s₃
