-- ===== src/Save/Saving.antt =====
-- `save` of src/corpus.cpp, and the constructor of `Corpus` on the file it wrote.
use photesthesis.Shared.{
  ◌≡◌, refl, ◌∙◌, ap, sym as path_sym, Bool, true, false, List, [], ◌∷◌, ◌++◌, some, ℕ, any_of,
  append_assoc,
}
use photesthesis.Symbol.{Bytes, Symbol}
use photesthesis.Transcript.{Transcript, transcript_eq}
use photesthesis.Corpus.{Corpus, transcripts_of}
use photesthesis.Corpus.Invariant.{IsValid}
use photesthesis.Corpus.Store.{holds}
use photesthesis.Text.Stream.{is_end}
use photesthesis.Save.{loaded}
use photesthesis.Save.Transcripts.{print_transcript}
use photesthesis.Save.Files.{print_set, print_sets, save, load}
use photesthesis.Save.Lines.{settled}
use photesthesis.Save.Flatten.{all_transcripts, all_transcripts-AreDistinct, any_of-all_transcripts}
use photesthesis.Save.Loading.{AreKeepable, load-print_set}

-- Two sets are written one behind the other.
print_set-append :
    (hash : Bytes → ℕ) (hex : Bool) (xs ys : List Transcript)
    → print_set hash hex (xs ++ ys) ≡ (
        let first = print_set hash hex xs in
        let others = print_set hash first.1 ys in (first.0 ++ others.0, others.1))
unfolding print_set
print_set-append hash hex [] ys = refl
print_set-append hash hex (x ∷ xs) ys =
    let first = print_transcript hash hex x in
    let others = print_set hash first.1 xs in
    let last = print_set hash others.1 ys in
    ap (λ r. (first.0 ++ r.0, r.1)) (print_set-append hash first.1 xs ys)
    ∙ ap (λ b. (b, last.1)) (path_sym (append_assoc first.0 others.0 last.0))

-- The nested loops of `save` write what one loop over all transcripts does.
print_sets-all :
    (hash : Bytes → ℕ) (hex : Bool) (m : List (Symbol × List Transcript))
    → print_sets hash hex m ≡ print_set hash hex (all_transcripts m)
unfolding print_sets print_set
print_sets-all hash hex [] = refl
print_sets-all hash hex (e ∷ m) =
    let first = print_set hash hex e.1 in
    ap (λ r. (first.0 ++ r.0, r.1)) (print_sets-all hash first.1 m)
    ∙ path_sym (print_set-append hash hex e.1 (all_transcripts m))

save_lem :
    (hash : Bytes → ℕ) (c : Corpus)
    → c.dirty ≡ true
    → save hash c ≡ some (print_set hash false (all_transcripts c.transcripts)).0
unfolding save
save_lem hash c h = rw h (ap (λ r. some r.0) (print_sets-all hash false c.transcripts))

holds-all :
    (c : Corpus) (u : Transcript)
    → IsValid c
    → any_of (λ t. transcript_eq t u) (all_transcripts c.transcripts) ≡ holds c u
unfolding transcripts_of
holds-all c u v = any_of-all_transcripts u c.transcripts v.keys v.sets

-- A corpus that was saved loads again: where a valid corpus is dirty, its texts keep its transcripts,
-- and each has a line, but for the last, `save` writes a file, and the constructor on it and a path
-- that is not empty gives a valid corpus that is not dirty and holds the same transcripts.
pub load-save :
    (hash : Bytes → ℕ) (path : Bytes) (save_on_destroy : Bool) (c : Corpus)
    → is_end path ≡ false
    → c.dirty ≡ true
    → IsValid c
    → AreKeepable hash (all_transcripts c.transcripts)
    → (text : Bytes) × (save hash c ≡ some text)
      × (c' : Corpus) × (load hash path save_on_destroy (some text) ≡ loaded c' (settled []))
      × IsValid c'
      × (c'.dirty ≡ false)
      × ((u : Transcript) → holds c' u ≡ holds c u)
load-save hash path save_on_destroy c named dirty v k =
    let ts = all_transcripts c.transcripts in
    let (c', e, valid, clean, hold) =
      load-print_set hash path save_on_destroy ts named k
        (all_transcripts-AreDistinct c.transcripts v.keys v.sets) in
    (
      (print_set hash false ts).0,
      save_lem hash c dirty,
      c',
      e,
      valid,
      clean,
      λ u. hold u ∙ holds-all c u v,
    )
