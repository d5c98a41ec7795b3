-- ===== src/Save/Loading.antt =====
-- The constructor of `Corpus` on a file that holds printed transcripts.
use photesthesis.Shared.{
  ℕ, zero, suc, ◌≤◌, ◌<◌, ◌≡◌, refl, ◌∙◌, ap, sym as path_sym, subst, Bool, false, ◌||◌, List, [],
  ◌∷◌, ◌++◌, arith, some, length, length-append, All, All-imp, any_of, inl, inr,
}
use photesthesis.Symbol.{Bytes}
use photesthesis.Transcript.{Transcript, transcript_eq}
use photesthesis.Shared.SetOf.{set_has}
use photesthesis.Shared.MapOf.{map_find}
use photesthesis.Corpus.{Corpus, transcripts_of, add_transcript}
use photesthesis.Corpus.Invariant.{IsValid}
use photesthesis.Corpus.Store.{holds}
use photesthesis.Corpus.Operations.{add_transcript_lem}
use photesthesis.Text.Stream.{Stream, open_text, scan_whitespace, skip_spaces, is_space, is_end}
use photesthesis.Save.{Loaded, loaded, ◌>>=◌}
use photesthesis.Save.Transcripts.{print_transcript, read_transcript}
use photesthesis.Save.Files.{print_set, load_from, load, empty_corpus}
use photesthesis.Save.Lines.{settled}
use photesthesis.Save.Texts.{
  Follows, IsKeepable, HasLines, head_text, settled_once, print_transcript-text,
}
use photesthesis.Save.RoundTrip.{read_transcript-print_transcript}
use photesthesis.Save.Flatten.{AreDistinct}
use photesthesis.Save.Lengths.{print_transcript_base, length-transcript}

-- What the file keeps of the transcripts, and each has a line, but for the last.
abbrev pub AreKeepable : (Bytes → ℕ) → List Transcript → Type 0
AreKeepable hash [] = Unit
AreKeepable hash (t ∷ ts) =
    IsKeepable hash t
    × HasLines t.plan.params t.vars (print_set hash false ts).0
    × AreKeepable hash ts

print_set_step :
    (hash : Bytes → ℕ) (t : Transcript) (ts : List Transcript)
    → IsKeepable hash t
    → (print_set hash false (t ∷ ts)).0
      ≡ (print_transcript hash false t).0 ++ (print_set hash false ts).0
unfolding print_set
print_set_step hash t ts k =
    ap (λ b. (print_transcript hash false t).0 ++ (print_set hash b ts).0)
      (print_transcript_base hash t k)

print_set-Follows : (hash : Bytes → ℕ) (ts : List Transcript) → Follows (print_set hash false ts).0
unfolding print_set print_transcript
print_set-Follows hash [] = inl refl
print_set-Follows hash (t ∷ ts) = inr (_, refl)

settled-head :
    (hash : Bytes → ℕ) (t : Transcript) (r : Bytes)
    → settled (head_text hash t r) ≡ open_text (head_text hash t r)
unfolding scan_whitespace skip_spaces is_space
settled-head hash t r = refl

settled-transcript :
    (hash : Bytes → ℕ) (t : Transcript) (r : Bytes)
    → IsKeepable hash t
    → let text = (print_transcript hash false t).0 ++ r in settled text ≡ open_text text
settled-transcript hash t r k =
    subst (λ x. settled x ≡ open_text x) (path_sym (print_transcript-text hash t r k))
      (settled-head hash t r)

All-both :
    (P Q : Transcript → Type 0) (ts : List Transcript)
    → All P ts
    → All Q ts
    → All (λ t. P t × Q t) ts
All-both P Q [] p q = tt
All-both P Q (t ∷ ts) p q = ((p.0, q.0), All-both P Q ts p.1 q.1)

swap : (a b c : Bool) → (a || (b || c)) ≡ ((b || a) || c)
swap a b c = ground arith

none_held :
    (path : Bytes) (save_on_destroy : Bool) (u : Transcript)
    → holds (empty_corpus path save_on_destroy) u ≡ false
unfolding transcripts_of map_find set_has
none_held path save_on_destroy u = refl

none_new :
    (path : Bytes) (save_on_destroy : Bool) (ts : List Transcript)
    → All (λ t. holds (empty_corpus path save_on_destroy) t ≡ false) ts
none_new path save_on_destroy [] = tt
none_new path save_on_destroy (t ∷ ts) =
    (none_held path save_on_destroy t, none_new path save_on_destroy ts)

holds-clean : (c : Corpus) (u : Transcript) → holds (record c { dirty = false }) u ≡ holds c u
unfolding transcripts_of
holds-clean c u = refl

clean-IsValid : (c : Corpus) → IsValid c → IsValid (record c { dirty = false })
clean-IsValid c v = record { keys = v.keys; sets = v.sets }

or_false : (a b : Bool) → b ≡ false → (a || b) ≡ a
or_false a b h = ground arith

module _ (hash : Bytes → ℕ) where
  load_from_step :
      (t : Transcript) (c c' : Corpus) (f : ℕ) (text rest : Bytes)
      → add_transcript c t ≡ some c'
      → read_transcript hash (suc (length text)) (open_text text) ≡ loaded t (settled rest)
      → load_from hash (suc f) c (open_text text) ≡ load_from hash f c' (settled rest)
  unfolding load_from
  load_from_step t c c' f text rest e h = rw (h, e, settled_once rest)

  load_from_end :
      (f : ℕ) (c : Corpus)
      → load_from hash (suc f) c (settled (print_set hash false []).0) ≡ loaded c (settled [])
  unfolding load_from print_set scan_whitespace skip_spaces
  load_from_end f c = refl

  -- A round of the constructor's loop.
  load_from_round :
      (t : Transcript) (ts : List Transcript) (f : ℕ) (c c' : Corpus)
      → AreKeepable hash (t ∷ ts)
      → add_transcript c t ≡ some c'
      → load_from hash (suc f) c (settled (print_set hash false (t ∷ ts)).0)
        ≡ load_from hash f c' (settled (print_set hash false ts).0)
  load_from_round t ts f c c' k e =
      let rest = (print_set hash false ts).0 in
      let text = (print_transcript hash false t).0 ++ rest in
      ap (λ x. load_from hash (suc f) c (settled x)) (print_set_step hash t ts k.0)
      ∙ ap (load_from hash (suc f) c) (settled-transcript hash t rest k.0)
      ∙ load_from_step t c c' f text rest e (
          read_transcript-print_transcript hash t (length text) rest k.0 k.1
            (print_set-Follows hash ts) (length-transcript hash t rest k.0).0
            (length-transcript hash t rest k.0).1)

  -- The corpus that a load gives.
  abbrev pub IsLoaded : Corpus → List Transcript → Corpus → Type 0
  IsLoaded c ts c' =
      IsValid c'
      × ((u : Transcript) → holds c' u ≡ (any_of (λ t. transcript_eq t u) ts || holds c u))

  load_from-print_set :
      (ts : List Transcript) (f : ℕ) (c : Corpus)
      → IsValid c
      → AreKeepable hash ts
      → AreDistinct ts
      → All (λ t. holds c t ≡ false) ts
      → length ts < f
      → (c' : Corpus) × (load_from hash f c (settled (print_set hash false ts).0)
          ≡ loaded c' (settled []))
        × IsLoaded c ts c'
  load_from-print_set ts zero c valid k d new h = absurd (omega (arith, h))
  load_from-print_set [] (suc f) c valid k d new h = (c, load_from_end f c, (valid, λ u. refl))
  load_from-print_set (t ∷ ts) (suc f) c valid k d new h = elim (add_transcript_lem c t valid) [
    | inl (e, b) ↦ absurd (ground (arith, b, new.0))
    | inr (c₁, e, b, valid₁, dirty, hold) ↦
        let fresh : All (λ u. holds c₁ u ≡ false) ts =
          All-imp (λ u p. ground (arith, hold u, p.0, p.1)) ts
            (All-both (λ u. transcript_eq t u ≡ false) (λ u. holds c u ≡ false) ts d.0 new.1) in
        let (c', q, (valid', hold')) =
          load_from-print_set ts f c₁ valid₁ k.2 d.1 fresh (omega (arith, h)) in
        (
          c',
          load_from_round t ts f c c₁ k e ∙ q,
          (
            valid',
            λ u.
                hold' u
                ∙ ap (λ b. any_of (λ x. transcript_eq x u) ts || b) (hold u)
                ∙ swap (any_of (λ x. transcript_eq x u) ts) (transcript_eq t u) (holds c u),
          ),
        )
  ]

  load-some :
      (path : Bytes) (save_on_destroy : Bool) (text : Bytes) (c : Corpus) (s : Stream)
      → is_end path ≡ false
      → load_from hash (suc (length text)) (empty_corpus path save_on_destroy) (settled text)
        ≡ loaded c s
      → load hash path save_on_destroy (some text) ≡ loaded (record c { dirty = false }) s
  unfolding load
  load-some path save_on_destroy text c s named h =
      let clean : Corpus → Stream → Loaded Corpus = λ d u. loaded (record d { dirty = false }) u in
      rw named (ap (λ x. x >>= clean) h)

  length-print_set :
      (ts : List Transcript) → AreKeepable hash ts → length ts ≤ length (print_set hash false ts).0
  length-print_set [] k = omega arith
  length-print_set (t ∷ ts) k =
      let text = (print_transcript hash false t).0 in
      let rest = (print_set hash false ts).0 in
      subst (λ x. suc (length ts) ≤ length x) (path_sym (print_set_step hash t ts k.0))
        (omega (arith, length-append text rest, not_empty t, length-print_set ts k.2))
    where
      not_empty : (t : Transcript) → 1 ≤ length (print_transcript hash false t).0
      not_empty t = unfold print_transcript in omega arith

  -- A file that `operator<<` wrote loads: where the transcripts are distinct, their texts keep them, and
  -- each has a line, but for the last, the constructor on a path that is not empty gives a valid corpus
  -- that is not dirty and holds these transcripts and no other.
  pub load-print_set :
      (path : Bytes) (save_on_destroy : Bool) (ts : List Transcript)
      → is_end path ≡ false
      → AreKeepable hash ts
      → AreDistinct ts
      → (c : Corpus) × (load hash path save_on_destroy (some (print_set hash false ts).0)
          ≡ loaded c (settled []))
        × IsValid c
        × (c.dirty ≡ false)
        × ((u : Transcript) → holds c u ≡ any_of (λ t. transcript_eq t u) ts)
  load-print_set path save_on_destroy ts named k d =
      let text = (print_set hash false ts).0 in
      let start = empty_corpus path save_on_destroy in
      let (c, q, (valid, hold)) =
        load_from-print_set ts (suc (length text)) start (record { keys = tt; sets = tt }) k d
          (none_new path save_on_destroy ts) (omega (arith, length-print_set ts k)) in
      (
        record c { dirty = false },
        load-some path save_on_destroy text c (settled []) named q,
        clean-IsValid c valid,
        refl,
        λ u.
            holds-clean c u
            ∙ hold u
            ∙ or_false (any_of (λ t. transcript_eq t u) ts) (holds start u)
                (none_held path save_on_destroy u),
      )
