-- ===== src/Save/Transcripts.antt =====
-- `operator<<` and `operator>>` of a transcript, in src/corpus.cpp.
use photesthesis.Shared.{
  ℕ, zero, suc, ◌-◌, ◌^◌, Bool, true, false, ◌&&◌, ◌||◌, List, [], ◌∷◌, ◌++◌, ◌==◌, if◌then◌else◌,
  codes, list_eq,
}
use photesthesis.Symbol.{Bytes}
use photesthesis.Plan.{Plan, get_hash_code, new_plan}
use photesthesis.Transcript.{Transcript, Var, name_of, new_transcript}
use photesthesis.Text.Stream.{Stream, scan_whitespace}
use photesthesis.Text.Digits.{digits}
use photesthesis.Save.{Loaded, loaded, failed, starved, ◌>>=◌}
use photesthesis.Save.Tokens.{
  read_word, read_symbol, looks_at, expect_str, expect_nonempty, strtoull,
}
use photesthesis.Save.Plans.{print_line, print_plan, read_named, read_plan}

-- What stands behind the name of the test.
unfoldable pub print_label : (Bytes → ℕ) → Plan → Bytes
unfolding digits get_hash_code
print_label hash plan =
    let code = get_hash_code hash plan in
    if plan.is_manual then codes " (manual)" else codes " 0x" ++ digits 16 (suc code) code

unfoldable pub print_vars : Bool → List Var → Bytes × Bool
unfolding print_line
print_vars hex [] = ([], hex)
print_vars hex (x ∷ xs) =
    let keyword = if x.1.1 then codes "track:" else codes "check:" in
    let line = print_line keyword hex x.0 x.1.0 in
    let others = print_vars line.1 xs in (line.0 ++ others.0, others.1)

-- `operator<<`. The base is decimal behind a hash, and else what it was.
unfoldable pub print_transcript : (Bytes → ℕ) → Bool → Transcript → Bytes × Bool
unfolding print_label print_plan print_vars
print_transcript hash hex t =
    let plan = print_plan (hex && t.plan.is_manual) t.plan in
    let vars = print_vars plan.1 t.vars in
    (
      codes "#### transcript: "
          ++ (name_of t ++ (print_label hash t.plan ++ (10 ∷ (plan.0 ++ (vars.0 ++ (10 ∷ [])))))),
      vars.1,
    )

-- The label: whether the plan is manual, and the hash, which is not to be 0 or the greatest.
unfoldable pub read_label : Bytes → Stream → Loaded (Bool × ℕ)
unfolding strtoull
read_label label s =
    let code = strtoull label in
    if list_eq (λ a b. a == b) label (codes "(manual)")
    then loaded (true, 0) s
    else if code == 0 || code == 2 ^ 64 - 1
    then failed
    else loaded (false, code) s

-- The loop over the variables; a round costs a unit of fuel.
unfoldable pub read_vars : ℕ → List Var → Stream → Loaded (List Var)
unfolding looks_at read_word read_named expect_str expect_nonempty scan_whitespace
read_vars zero acc s = starved
read_vars (suc f) acc s =
    let found = looks_at (λ c. c == b'c' || c == b't') s in
    let is_check = λ (k : Bytes). list_eq (λ a b. a == b) k (codes "check:") in
    let is_track = λ (k : Bytes). list_eq (λ a b. a == b) k (codes "track:") in
    let more = read_word found.1 >>= λ keyword s₁. read_named s₁ >>= λ line s₂.
    expect_str (codes "=") line.1.0 s₂ >>= λ _ s₃. expect_nonempty line.0 s₃ >>= λ _ s₄.
    let rest =
      read_vars f (acc ++ ((line.0, (line.1.1, is_track keyword)) ∷ [])) (scan_whitespace s₄) in
    if is_check keyword || is_track keyword then rest else failed in
    if found.0 then more else loaded acc found.1

-- The assertion on the hash of a plan that is not manual.
unfoldable pub expect_hash : (Bytes → ℕ) → Bool × ℕ → Plan → Stream → Loaded (Unit {0})
unfolding get_hash_code
expect_hash hash label plan s =
    if label.0 || label.1 == get_hash_code hash plan then loaded tt s else failed

-- `operator>>`. The first two words, which are to be `####` and `transcript:`, are not looked at.
unfoldable pub read_transcript : (Bytes → ℕ) → ℕ → Stream → Loaded Transcript
unfolding read_word read_symbol read_label expect_nonempty read_plan expect_hash read_vars
    scan_whitespace
read_transcript hash fuel s = read_word s >>= λ hashes s₁. read_word s₁ >>= λ keyword s₂.
    read_symbol s₂ >>= λ name s₃. read_word s₃ >>= λ label s₄.
    read_label label s₄ >>= λ is_manual s₅. expect_nonempty name s₅ >>= λ _ s₆.
    read_plan fuel (new_plan name is_manual.0) s₆ >>= λ plan s₇.
    expect_hash hash is_manual plan s₇ >>= λ _ s₈.
    read_vars fuel [] (scan_whitespace s₈) >>= λ vars s₉.
    loaded (record (new_transcript plan) { vars = vars }) s₉
