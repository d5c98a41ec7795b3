-- ===== src/Save/Lengths.antt =====
-- How long the text of a transcript is, against its parameters and variables, in corpus.cpp;
-- and that printing one leaves the stream decimal.
use photesthesis.Shared.{
  ℕ, suc, ◌≤◌, ◌<◌, ◌≡◌, refl, ◌∙◌, ap, sym as path_sym, subst, Bool, true, false, List, [], ◌∷◌,
  ◌++◌, arith, length, length-append, All, codes,
}
use photesthesis.Symbol.{Bytes}
use photesthesis.Plan.{Params}
use photesthesis.Transcript.{Transcript, Var, name_of}
use photesthesis.Text.Printer.{print_value}
use photesthesis.Text.RoundTrip.{print_base}
use photesthesis.Save.Plans.{print_line, print_params}
use photesthesis.Save.Transcripts.{print_vars, print_transcript}
use photesthesis.Save.Lines.{IsKept}
use photesthesis.Save.Texts.{IsKeepable, body, print_plan-bare, print_transcript-text}

print_vars_base : (xs : List Var) → All (λ x. IsKept x.0 x.1.0) xs → (print_vars false xs).1 ≡ false
unfolding print_vars print_line
print_vars_base [] k = refl
print_vars_base (x ∷ xs) k = rw (print_base x.1.0 k.0.1, print_vars_base xs k.1)

pub print_transcript_base :
    (hash : Bytes → ℕ) (t : Transcript)
    → IsKeepable hash t
    → (print_transcript hash false t).1 ≡ false
unfolding print_transcript
print_transcript_base hash t k =
    ap (λ pl. (print_vars pl.1 t.vars).1) (print_plan-bare t.plan k.bare k.params)
    ∙ print_vars_base t.vars k.vars

length-line :
    (name text rest : Bytes)
    → length rest ≤ length ((name ++ (codes " = " ++ (text ++ 10 ∷ []))) ++ rest)
length-line name text rest =
    omega (arith, length-append (name ++ (codes " = " ++ (text ++ 10 ∷ []))) rest)

-- Each line is a character at least.
length-print_params : (hex : Bool) (ps : Params) → length ps ≤ length (print_params hex ps).0
unfolding print_params print_line
length-print_params hex [] = omega arith
length-print_params hex (p ∷ ps) =
    let printed = print_value hex p.1 in
    omega (
      arith,
      length-line p.0 printed.0 (print_params printed.1 ps).0,
      length-print_params printed.1 ps,
    )

length-print_vars : (hex : Bool) (xs : List Var) → length xs ≤ length (print_vars hex xs).0
unfolding print_vars print_line
length-print_vars hex [] = omega arith
length-print_vars hex ((name, (v, true)) ∷ xs) =
    let printed = print_value hex v in
    omega (
      arith,
      length-line name printed.0 (print_vars printed.1 xs).0,
      length-print_vars printed.1 xs,
    )
length-print_vars hex ((name, (v, false)) ∷ xs) =
    let printed = print_value hex v in
    omega (
      arith,
      length-line name printed.0 (print_vars printed.1 xs).0,
      length-print_vars printed.1 xs,
    )

-- The text of a transcript is long enough for the fuel of its loops.
pub length-transcript :
    (hash : Bytes → ℕ) (t : Transcript) (r : Bytes)
    → IsKeepable hash t
    → let text = (print_transcript hash false t).0 ++ r in
      (length t.plan.params < suc (length text)) × (length t.vars < suc (length text))
length-transcript hash t r k =
    subst (λ x. (length t.plan.params < suc (length x)) × (length t.vars < suc (length x)))
      (path_sym (print_transcript-text hash t r k)) (fits (name_of t) _)
  where
    vars_text : Bytes
    vars_text = (print_vars false t.vars).0 ++ 10 ∷ r

    fits :
        (name label : Bytes)
        → let text = codes "#### transcript: " ++ (name ++ (32 ∷ (label ++ 10 ∷ body t r))) in
          (length t.plan.params < suc (length text)) × (length t.vars < suc (length text))
    fits name label =
        let a = length-append name (32 ∷ (label ++ 10 ∷ body t r)) in
        let b = length-append label (10 ∷ body t r) in
        let c =
          length-append (print_params false t.plan.params).0
            ((print_vars false t.vars).0 ++ 10 ∷ r) in
        let d = length-append (print_vars false t.vars).0 (10 ∷ r) in
        let e = length-print_params false t.plan.params in
        let f = length-print_vars false t.vars in
        (omega (arith, a, b, c, d, e, f), omega (arith, a, b, c, d, e, f))
