-- ===== src/Save/Examples.antt =====
-- The theorems on the corpus file at concrete inputs.
use photesthesis.Shared.{ℕ, ◌≡◌, refl, true, false, [], ◌∷◌, ◌++◌, inl, inr, arith, codes, some}
use photesthesis.Shared.Ints.{pos}
use photesthesis.Symbol.{Bytes, is_symbol_char, is_alnum, is_digit}
use photesthesis.Value.{int64, nil}
use photesthesis.Plan.{get_hash_code}
use photesthesis.Transcript.{Transcript}
use photesthesis.Corpus.{Corpus}
use photesthesis.Corpus.Invariant.{IsValid}
use photesthesis.Corpus.Store.{holds}
use photesthesis.Text.Stream.{open_text, scan_whitespace, skip_spaces, is_space}
use photesthesis.Text.Parser.{close_list}
use photesthesis.Text.RoundTrip.{IsPrintable}
use photesthesis.Save.{loaded, failed}
use photesthesis.Save.Tokens.{read_value}
use photesthesis.Save.Transcripts.{print_transcript, read_transcript}
use photesthesis.Save.Files.{save, load}
use photesthesis.Save.Reading.{IsSymbol}
use photesthesis.Save.Lines.{settled}
use photesthesis.Save.Labels.{IsHash}
use photesthesis.Save.Texts.{IsKeepable}
use photesthesis.Save.RoundTrip.{read_transcript-print_transcript}
use photesthesis.Save.Saving.{load-save}

-- A transcript with a parameter and a checked variable.
abbrev kept : Transcript
kept = record {
  plan = record {
    test_name = codes "t";
    is_manual = false;
    comments = [];
    params = (codes "x", int64 (pos 7)) ∷ [];
  };
  vars = (codes "y", (int64 (pos 3), false)) ∷ [];
}

abbrev seven : Bytes → ℕ
seven s = 7

t-IsSymbol : IsSymbol (codes "t")
unfolding is_symbol_char is_alnum is_digit
t-IsSymbol = record { legal = refl; some_left = refl }

x-IsSymbol : IsSymbol (codes "x")
unfolding is_symbol_char is_alnum is_digit
x-IsSymbol = record { legal = refl; some_left = refl }

y-IsSymbol : IsSymbol (codes "y")
unfolding is_symbol_char is_alnum is_digit
y-IsSymbol = record { legal = refl; some_left = refl }

seven-IsPrintable : IsPrintable (int64 (pos 7))
unfolding IsPrintable
seven-IsPrintable = omega arith

three-IsPrintable : IsPrintable (int64 (pos 3))
unfolding IsPrintable
three-IsPrintable = omega arith

kept-IsHash : IsHash (get_hash_code seven kept.plan)
unfolding get_hash_code
kept-IsHash = (refl, omega arith)

kept-IsKeepable : IsKeepable seven kept
kept-IsKeepable = record {
  name = t-IsSymbol;
  bare = refl;
  params = ((x-IsSymbol, seven-IsPrintable), tt);
  vars = ((y-IsSymbol, three-IsPrintable), tt);
  code = inr kept-IsHash;
}

read_transcript-print_transcript_example :
    read_transcript seven 3 (open_text ((print_transcript seven false kept).0 ++ []))
    ≡ loaded kept (settled [])
read_transcript-print_transcript_example =
    read_transcript-print_transcript seven kept 2 [] kept-IsKeepable tt (inl refl) (omega arith)
      (omega arith)

abbrev shelf : Corpus
shelf = record {
  path = codes "f";
  save_on_destroy = true;
  dirty = true;
  transcripts = (codes "t", kept ∷ []) ∷ [];
}

shelf-IsValid : IsValid shelf
shelf-IsValid = record { keys = (tt, tt); sets = (((tt, tt), (refl, tt)), tt) }

load-save_example :
    (text : Bytes) × (save seven shelf ≡ some text)
    × (c : Corpus) × (load seven (codes "f") true (some text) ≡ loaded c (settled []))
    × IsValid c
    × (c.dirty ≡ false)
    × ((u : Transcript) → holds c u ≡ holds shelf u)
load-save_example =
    load-save seven (codes "f") true shelf refl refl shelf-IsValid (kept-IsKeepable, tt, tt)

-- A text that ends behind the name of a parameter leaves nil, and one that ends in an open list throws.
read_value_at_end :
    read_value (record (open_text []) { eof = true })
    ≡ loaded nil (record (open_text []) { eof = true })
unfolding read_value scan_whitespace
read_value_at_end = refl

read_value_open : read_value (open_text (codes " (")) ≡ failed
unfolding read_value scan_whitespace skip_spaces is_space close_list
read_value_open = refl
