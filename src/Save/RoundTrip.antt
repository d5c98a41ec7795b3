-- ===== src/Save/RoundTrip.antt =====
-- A transcript that `operator<<` writes reads back.
use photesthesis.Shared.{
  ℕ, suc, ◌<◌, ◌≡◌, refl, ◌∙◌, ap, sym as path_sym, Bool, true, false, ◌||◌, List, [], ◌∷◌, ◌++◌,
  length, codes, ◌==◌,
}
use photesthesis.Symbol.{Bytes, Symbol}
use photesthesis.Plan.{Plan, Params, get_hash_code, new_plan}
use photesthesis.Transcript.{Transcript, name_of}
use photesthesis.Text.Stream.{Stream, open_text, is_space, skip_spaces, scan_whitespace}
use photesthesis.Save.{Loaded, loaded, ◌>>=◌}
use photesthesis.Save.Tokens.{read_ws, expect_nonempty}
use photesthesis.Save.Plans.{read_comments, read_params, read_plan}
use photesthesis.Save.Transcripts.{print_vars, print_transcript, read_transcript}
use photesthesis.Save.Reading.{IsWord, IsSymbol, read_word-word, read_word-space, read_symbol-name}
use photesthesis.Save.Lines.{settled, StopsAt, read_params-print, read_vars-print}
use photesthesis.Save.Labels.{
  label_word, label_word-IsWord, label_of, label_of-first, read_label-word, expect_hash-label,
}
use photesthesis.Save.Texts.{
  Follows, stops_behind, StopsAt-vars, settled_once, IsKeepable, body, print_transcript-text,
  HasLines, no_comment,
}

bound :
    {A B : Type 0} {x : Loaded A} {a : A} {s : Stream} {y : Loaded B} (f : A → Stream → Loaded B)
    → x ≡ loaded a s
    → f a s ≡ y
    → (x >>= f) ≡ y
bound f e h = ap (λ z. z >>= f) e ∙ h

read_ws-newline : (x : Bytes) → read_ws (open_text (10 ∷ x)) ≡ loaded tt (settled x)
unfolding read_ws scan_whitespace skip_spaces is_space
read_ws-newline x = refl

read_comments-stop :
    (f : ℕ) (x : Bytes)
    → StopsAt (λ c. c == b'#') x
    → read_comments (suc f) [] (settled x) ≡ loaded [] (settled x)
unfolding read_comments
read_comments-stop f x stop = rw stop

read_plan-print :
    (hash : Bytes → ℕ) (t : Transcript) (f : ℕ) (p : Plan) (r : Bytes)
    → IsKeepable hash t
    → HasLines t.plan.params t.vars r
    → Follows r
    → length t.plan.params < suc f
    → read_plan (suc f) p (open_text (10 ∷ body t r))
      ≡ loaded
          (record p { comments = []; params = t.plan.params })
          (settled ((print_vars false t.vars).0 ++ 10 ∷ r))
unfolding read_plan
read_plan-print hash t f p r k lines follows h =
    let stop = StopsAt-vars (λ c. c == b'p') t.vars r refl refl refl follows in
    let finish : List Bytes → Params → Stream → Loaded Plan =
      λ cs ps s. loaded (record p { comments = cs; params = ps }) s in
    let with_params : List Bytes → Stream → Loaded Plan =
      λ cs s. read_params (suc f) [] s >>= finish cs in
    let with_comments : Unit {0} → Stream → Loaded Plan =
      λ _ s. read_comments (suc f) [] s >>= with_params in
    bound with_comments (read_ws-newline (body t r)) (
      bound with_params (read_comments-stop f (body t r) (no_comment t.plan.params t.vars r lines))
        (bound (finish [])
          (read_params-print t.plan.params (suc f) [] ((print_vars false t.vars).0 ++ 10 ∷ r)
            k.params stop h)
          refl))

expect_nonempty-name :
    (name : Symbol) (s : Stream) → IsSymbol name → expect_nonempty name s ≡ loaded tt s
unfolding expect_nonempty
expect_nonempty-name name s k = rw k.some_left

-- A plan without comments is the one read of its name, its label and its parameters.
bare_plan :
    (b : Bool) (plan : Plan)
    → plan.comments ≡ []
    → b ≡ plan.is_manual
    → record (new_plan plan.test_name b) { comments = []; params = plan.params } ≡ plan
bare_plan b plan bare e = λ i. record {
  test_name = plan.test_name;
  is_manual = e i;
  comments = path_sym bare i;
  params = plan.params;
}

settled-newline : (r : Bytes) → settled (10 ∷ r) ≡ settled r
unfolding scan_whitespace skip_spaces is_space
settled-newline r = refl

hashes-IsWord : IsWord (codes "####")
unfolding is_space
hashes-IsWord = record { black = refl; some_left = refl }

transcript-IsWord : IsWord (codes "transcript:")
unfolding is_space
transcript-IsWord = record { black = refl; some_left = refl }

is_space-space : is_space 32 ≡ true
unfolding is_space
is_space-space = refl

is_space-newline : is_space 10 ≡ true
unfolding is_space
is_space-newline = refl

-- Where `operator<<` has written a transcript whose text keeps it, which has a line if another follows,
-- and the file ends behind it or the next one begins, `operator>>` reads it back, on more fuel than it
-- has parameters and variables.
pub read_transcript-print_transcript :
    (hash : Bytes → ℕ) (t : Transcript) (f : ℕ) (r : Bytes)
    → IsKeepable hash t
    → HasLines t.plan.params t.vars r
    → Follows r
    → length t.plan.params < suc f
    → length t.vars < suc f
    → read_transcript hash (suc f) (open_text ((print_transcript hash false t).0 ++ r))
      ≡ loaded t (settled r)
unfolding read_transcript
read_transcript-print_transcript hash t f r k lines follows h h' =
    let code = get_hash_code hash t.plan in
    let label = label_word t.plan.is_manual code in
    let after = 10 ∷ body t r in
    let vars_text = (print_vars false t.vars).0 ++ 10 ∷ r in
    let stop = stops_behind (λ c. c == b'c' || c == b't') r refl follows in
    let from_label = name_of t ++ (32 ∷ (label ++ after)) in
    let from_keyword = codes "transcript:" ++ (32 ∷ from_label) in
    let plan_read =
      read_plan-print hash t f (new_plan (name_of t) (label_of t.plan.is_manual code).0) r k lines
        follows h
      ∙ ap (λ p. loaded p (settled vars_text))
          (bare_plan (label_of t.plan.is_manual code).0 t.plan k.bare
            (label_of-first t.plan.is_manual code)) in
    rw
      (
        print_transcript-text hash t r k,
        read_word-word (codes "####") 32 from_keyword hashes-IsWord is_space-space,
        read_word-space 32 from_keyword is_space-space,
        read_word-word (codes "transcript:") 32 from_label transcript-IsWord is_space-space,
        read_symbol-name (name_of t) 32 (label ++ after) k.name is_space-space,
        read_word-space 32 (label ++ after) is_space-space,
        read_word-word label 10 (body t r) (label_word-IsWord t.plan.is_manual code)
            is_space-newline,
        read_label-word t.plan.is_manual code (open_text after) k.code,
        expect_nonempty-name (name_of t) (open_text after) k.name,
        plan_read,
        expect_hash-label hash t.plan.is_manual t.plan (settled vars_text),
        settled_once vars_text,
        read_vars-print t.vars (suc f) [] (10 ∷ r) k.vars stop h',
      )
      (ap (loaded t) (settled-newline r))
