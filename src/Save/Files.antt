-- ===== src/Save/Files.antt =====
-- The constructor of `Corpus` and `save`, in src/corpus.cpp, on the text of the file.
use photesthesis.Shared.{
  ℕ, zero, suc, Bool, false, List, [], ◌∷◌, ◌++◌, Option, none, some, length, if◌then◌else◌,
}
use photesthesis.Symbol.{Bytes, Symbol}
use photesthesis.Transcript.{Transcript}
use photesthesis.Corpus.{Corpus, add_transcript}
use photesthesis.Text.Stream.{Stream, good, open_text, scan_whitespace, is_end}
use photesthesis.Save.{Loaded, loaded, failed, starved, ◌>>=◌}
use photesthesis.Save.Transcripts.{print_transcript, read_transcript}

unfoldable pub print_set : (Bytes → ℕ) → Bool → List Transcript → Bytes × Bool
unfolding print_transcript
print_set hash hex [] = ([], hex)
print_set hash hex (t ∷ ts) =
    let first = print_transcript hash hex t in
    let others = print_set hash first.1 ts in (first.0 ++ others.0, others.1)

unfoldable pub print_sets : (Bytes → ℕ) → Bool → List (Symbol × List Transcript) → Bytes × Bool
unfolding print_set
print_sets hash hex [] = ([], hex)
print_sets hash hex (e ∷ m) =
    let first = print_set hash hex e.1 in
    let others = print_sets hash first.1 m in (first.0 ++ others.0, others.1)

-- `save`: the text that the file then has, if it is written.
unfoldable pub save : (Bytes → ℕ) → Corpus → Option Bytes
unfolding print_sets
save hash c = if c.dirty then some (print_sets hash false c.transcripts).0 else none

-- The destructor.
unfoldable pub destroy : (Bytes → ℕ) → Corpus → Option Bytes
unfolding save
destroy hash c = if c.save_on_destroy then save hash c else none

-- A transcript that the corpus holds already fails an assertion.
abbrev pub add_loaded : Option Corpus → Stream → Loaded Corpus
add_loaded none s = failed
add_loaded (some c) s = loaded c s

-- The loop of the constructor; a round costs a unit of fuel.
unfoldable pub load_from : (Bytes → ℕ) → ℕ → Corpus → Stream → Loaded Corpus
unfolding read_transcript add_transcript scan_whitespace
load_from hash zero c s = starved
load_from hash (suc f) c s =
    let more = read_transcript hash (suc (length s.rest)) s >>= λ t u.
    add_loaded (add_transcript c t) u >>= λ added v. load_from hash f added (scan_whitespace v) in
    if good s then more else loaded c s

abbrev pub empty_corpus : Bytes → Bool → Corpus
empty_corpus path save_on_destroy = record {
  path = path;
  save_on_destroy = save_on_destroy;
  dirty = false;
  transcripts = [];
}

-- The constructor, on what the file of that path holds, if it can be opened. There is none for an
-- empty path.
unfoldable pub load : (Bytes → ℕ) → Bytes → Bool → Option Bytes → Loaded Corpus
unfolding load_from
load hash path save_on_destroy none = loaded (empty_corpus path save_on_destroy) (open_text [])
load hash path save_on_destroy (some text) =
    let start = empty_corpus path save_on_destroy in
    let read =
      load_from hash (suc (length text)) start (scan_whitespace (open_text text)) >>= λ c s.
      loaded (record c { dirty = false }) s in
    if is_end path then loaded start (open_text []) else read
