-- ===== src/Corpus/Examples.antt =====
-- The theorems on plans, transcripts and the corpus at concrete inputs.
use photesthesis.Shared.{◌≡◌, ◌↔◌, ◌⊎◌, refl, true, false, not, ◌&&◌, ◌||◌, [], ◌∷◌, none, codes}
use photesthesis.Symbol.{Symbol, symbol_eq}
use photesthesis.Shared.Ints.{pos}
use photesthesis.Value.{int64}
use photesthesis.Plan.{new_plan, plan_eq}
use photesthesis.Plan.Order.{plan_eq_iff}
use photesthesis.Transcript.{Transcript, name_of, named_transcript, add_checked_var, transcript_eq}
use photesthesis.Transcript.Order.{transcript_eq_iff}
use photesthesis.Corpus.{Corpus, add_transcript, replace_transcript, update_transcript}
use photesthesis.Corpus.Invariant.{IsValid}
use photesthesis.Corpus.Store.{holds, Ends}
use photesthesis.Corpus.Operations.{
  add_transcript_lem, replace_transcript_lem, update_transcript_lem,
}

abbrev name : Symbol
name = codes "t"

abbrev old_transcript : Transcript
old_transcript = named_transcript name

abbrev new_one : Transcript
new_one = add_checked_var old_transcript (codes "x") (int64 (pos 1))

abbrev small : Corpus
small = record {
  path = codes "c";
  save_on_destroy = true;
  dirty = false;
  transcripts = (name, old_transcript ∷ []) ∷ [];
}

small-IsValid : IsValid small
small-IsValid = record { keys = (tt, tt); sets = (((tt, tt), (refl, tt)), tt) }

plan_eq_iff_example :
    (plan_eq (new_plan name true) (new_plan name false) ≡ true)
    ↔ (new_plan name true ≡ new_plan name false)
plan_eq_iff_example = plan_eq_iff (new_plan name true) (new_plan name false)

transcript_eq_iff_example :
    (transcript_eq old_transcript new_one ≡ true) ↔ (old_transcript ≡ new_one)
transcript_eq_iff_example = transcript_eq_iff old_transcript new_one

add_transcript_lem_example :
    Ends (add_transcript small new_one) new_one (holds small new_one) (holds small)
add_transcript_lem_example = add_transcript_lem small new_one small-IsValid

replace_transcript_lem_example :
    Ends
      (replace_transcript small old_transcript new_one)
      new_one
      (not (symbol_eq (name_of old_transcript) (name_of new_one))
        || (not (holds small old_transcript)
            || (not (transcript_eq old_transcript new_one) && holds small new_one)))
      (λ u. not (transcript_eq old_transcript u) && holds small u)
replace_transcript_lem_example = replace_transcript_lem small old_transcript new_one small-IsValid

update_transcript_lem_example :
    ((update_transcript small new_one ≡ none)
      × ((u : Transcript) → holds small u ≡ true → plan_eq u.plan new_one.plan ≡ false))
    ⊎ ((old : Transcript) × (plan_eq old.plan new_one.plan ≡ true)
        × (holds small old ≡ true)
        × Ends
            (update_transcript small new_one)
            new_one
            (not (transcript_eq old new_one) && holds small new_one)
            (λ u. not (transcript_eq old u) && holds small u))
update_transcript_lem_example = update_transcript_lem small new_one small-IsValid
