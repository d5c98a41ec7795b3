-- ===== src/Save/Texts.antt =====
-- The text of a transcript that `operator<<` of src/corpus.cpp writes, and where its parts end.
use photesthesis.Shared.{
  ℕ, ◌≡◌, ◌⊎◌, refl, ◌∙◌, ap, sym as path_sym, subst, Bool, true, false, List, [], ◌∷◌, ◌++◌,
  append_assoc, All, codes, ◌==◌, Bool-cases, inl, inr,
}
use photesthesis.Symbol.{Bytes}
use photesthesis.Plan.{Plan, Params, get_hash_code}
use photesthesis.Transcript.{Transcript, Var, name_of}
use photesthesis.Text.Stream.{peek, peek_rest, is_space, skip_spaces, scan_whitespace}
use photesthesis.Text.RoundTrip.{print_base}
use photesthesis.Save.Tokens.{looks_at}
use photesthesis.Save.Plans.{print_line, print_comments, print_params, print_plan}
use photesthesis.Save.Transcripts.{print_vars, print_transcript, print_label}
use photesthesis.Save.Reading.{IsSymbol}
use photesthesis.Save.Lines.{settled, StopsAt, IsKept}
use photesthesis.Save.Labels.{label_word, print_label-word, IsHash}

-- Behind a transcript the file ends, or the next one begins.
abbrev pub Follows : Bytes → Type 0
Follows r = (r ≡ []) ⊎ ((r' : Bytes) × (r ≡ b'#' ∷ r'))

pub stops_behind : (p : ℕ → Bool) (r : Bytes) → p b'#' ≡ false → Follows r → StopsAt p (10 ∷ r)
unfolding looks_at peek peek_rest scan_whitespace skip_spaces is_space
stops_behind p r h (inl e) = subst (λ x. StopsAt p (10 ∷ x)) (path_sym e) refl
stops_behind p r h (inr (r', e)) = subst (λ x. StopsAt p (10 ∷ x)) (path_sym e) (rw h)

-- Where variables are printed, or what follows them.
pub StopsAt-vars :
    (p : ℕ → Bool) (xs : List Var) (r : Bytes)
    → p b'#' ≡ false
    → p b'c' ≡ false
    → p b't' ≡ false
    → Follows r
    → StopsAt p ((print_vars false xs).0 ++ 10 ∷ r)
unfolding print_vars print_line looks_at peek peek_rest scan_whitespace skip_spaces is_space
StopsAt-vars p [] r h c t follows = stops_behind p r h follows
StopsAt-vars p ((name, (v, true)) ∷ xs) r h c t follows = rw t
StopsAt-vars p ((name, (v, false)) ∷ xs) r h c t follows = rw c

-- Spaces that were passed over are passed over once.
pub settled_once : (r : Bytes) → scan_whitespace (settled r) ≡ settled r
unfolding scan_whitespace skip_spaces
settled_once [] = refl
settled_once (c ∷ r) = elim (Bool-cases (is_space c)) [
  | inl e ↦ rw e (settled_once r)
  | inr e ↦ rw (e, e)
]

pub print_params_base :
    (ps : Params) → All (λ p. IsKept p.0 p.1) ps → (print_params false ps).1 ≡ false
unfolding print_params print_line
print_params_base [] k = refl
print_params_base (p ∷ ps) k = rw (print_base p.1 k.0.1, print_params_base ps k.1)

pub print_plan-bare :
    (plan : Plan)
    → plan.comments ≡ []
    → All (λ p. IsKept p.0 p.1) plan.params
    → print_plan false plan ≡ ((print_params false plan.params).0, false)
unfolding print_plan print_comments
print_plan-bare plan bare k =
    ap
      (λ cs. (
        print_comments cs ++ (print_params false plan.params).0,
        (print_params false plan.params).1,
      ))
      bare
    ∙ ap (λ b. ((print_params false plan.params).0, b)) (print_params_base plan.params k)

regroup :
    (name label params vars r : Bytes)
    → (name ++ (label ++ (10 ∷ (params ++ (vars ++ (10 ∷ [])))))) ++ r
      ≡ name ++ (label ++ (10 ∷ (params ++ (vars ++ 10 ∷ r))))
regroup name label params vars r =
    append_assoc name _ r
    ∙ ap (λ x. name ++ x)
        (append_assoc label _ r
          ∙ ap (λ x. label ++ (10 ∷ x))
              (append_assoc params _ r ∙ ap (λ x. params ++ x) (append_assoc vars (10 ∷ []) r)))

-- What the text of a transcript keeps: symbols and printable values, no comments, and, where it is not
-- manual, a hash that reads.
pub record IsKeepable (hash : Bytes → ℕ) (t : Transcript) : Type 0 where
  pub name : IsSymbol (name_of t)
  pub bare : t.plan.comments ≡ []
  pub params : All (λ p. IsKept p.0 p.1) t.plan.params
  pub vars : All (λ x. IsKept x.0 x.1.0) t.vars
  pub code : (t.plan.is_manual ≡ true) ⊎ IsHash (get_hash_code hash t.plan)

-- The lines of a transcript, with what follows it.
abbrev pub body : Transcript → Bytes → Bytes
body t r = (print_params false t.plan.params).0 ++ ((print_vars false t.vars).0 ++ 10 ∷ r)

abbrev pub head_text : (Bytes → ℕ) → Transcript → Bytes → Bytes
head_text hash t r =
    codes "#### transcript: "
    ++ (name_of t
        ++ (32 ∷ (label_word t.plan.is_manual (get_hash_code hash t.plan) ++ 10 ∷ body t r)))

pub print_transcript-text :
    (hash : Bytes → ℕ) (t : Transcript) (r : Bytes)
    → IsKeepable hash t
    → (print_transcript hash false t).0 ++ r ≡ head_text hash t r
unfolding print_transcript
print_transcript-text hash t r k =
    ap
      (λ pl.
        (codes "#### transcript: "
          ++ (name_of t
              ++ (print_label hash t.plan
                  ++ (10 ∷ (pl.0 ++ ((print_vars pl.1 t.vars).0 ++ (10 ∷ [])))))))
        ++ r)
      (print_plan-bare t.plan k.bare k.params)
    ∙ ap (λ x. codes "#### transcript: " ++ x)
        (regroup (name_of t) (print_label hash t.plan) (print_params false t.plan.params).0
            (print_vars false t.vars).0 r
          ∙ ap (λ l. name_of t ++ (l ++ (10 ∷ body t r))) (print_label-word hash t.plan))

-- There is a line, or the file ends: the header that follows would be taken for a comment.
abbrev pub HasLines : Params → List Var → Bytes → Type 0
HasLines (p ∷ ps) xs r = Unit
HasLines [] (x ∷ xs) r = Unit
HasLines [] [] r = r ≡ []

pub no_comment :
    (ps : Params) (xs : List Var) (r : Bytes)
    → HasLines ps xs r
    → StopsAt (λ c. c == b'#') ((print_params false ps).0 ++ ((print_vars false xs).0 ++ 10 ∷ r))
unfolding print_params print_vars print_line looks_at peek peek_rest scan_whitespace skip_spaces
    is_space
no_comment (p ∷ ps) xs r h = refl
no_comment [] ((name, (v, true)) ∷ xs) r h = refl
no_comment [] ((name, (v, false)) ∷ xs) r h = refl
no_comment [] [] r h = subst (λ s. StopsAt (λ c. c == b'#') (10 ∷ s)) (path_sym h) refl
