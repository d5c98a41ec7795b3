-- ===== src/Corpus/Store.antt =====
-- How an insertion into one set of a corpus ends, which all operations of the corpus end with.
use photesthesis.Shared.{
  ◌≡◌, refl, ◌⊎◌, ◌∙◌, ap, sym as path_sym, subst, Bool, true, false, not, ◌&&◌, ◌||◌, List, Option,
  none, some, if◌then◌else◌, Bool-cases, inl, inr,
}
use mathlib.Core.Path.{fun_ext}
use photesthesis.Shared.SetOf.{
  set_has, set_insert, set_erase, set_has-set_insert, set_has-set_erase, set_insert-IsSorted,
  set_erase-IsSorted, All-set_insert, All-set_erase,
}
use photesthesis.Symbol.{Symbol, symbol_eq}
use photesthesis.Value.Equality.{symbol_eq_iff}
use photesthesis.Transcript.{Transcript, name_of, transcript_lt, transcript_eq}
use photesthesis.Transcript.Order.{transcript_lt-IsTotalOrder, transcript_eq_iff}
use photesthesis.Corpus.{
  Corpus, transcripts_of, put_transcripts, get_transcripts, mark_dirty, emplace_transcript,
}
use photesthesis.Corpus.Invariant.{
  IsFiled, IsValid, equiv-transcript, transcripts_of-IsFiled, put_transcripts-IsValid,
  transcripts_of-put, transcripts_of-mark_dirty, mark_dirty-IsValid,
}

-- The corpus holds the transcript, in the set of its name.
abbrev pub holds : Corpus → Transcript → Bool
holds c t = set_has transcript_lt t (transcripts_of c (name_of t))

insert-IsFiled :
    (t : Transcript) (ts : List Transcript)
    → IsFiled (name_of t) ts
    → IsFiled (name_of t) (set_insert transcript_lt t ts)
insert-IsFiled t ts f = (
  set_insert-IsSorted transcript_lt-IsTotalOrder.weak t ts f.0,
  All-set_insert transcript_lt (λ u. name_of u ≡ name_of t) t ts refl f.1,
)

-- The corpus after a set was stored with a transcript in it, and marked dirty.
abbrev stored : Corpus → Symbol → List Transcript → Transcript → Corpus
stored c name ts t = mark_dirty (put_transcripts c name (set_insert transcript_lt t ts))

pub transcript_eq_other :
    (t u : Transcript) → symbol_eq (name_of t) (name_of u) ≡ false → transcript_eq t u ≡ false
transcript_eq_other t u h = elim (Bool-cases (transcript_eq t u)) [
  | inl e ↦
      let same =
        (symbol_eq_iff (name_of t) (name_of u)).1 (ap name_of ((transcript_eq_iff t u).0 e)) in
      cc (same, h)
  | inr e ↦ e
]

transcripts_of-stored :
    (c : Corpus) (ts : List Transcript) (t : Transcript) (j : Symbol)
    → transcripts_of (stored c (name_of t) ts t) j
      ≡ (if symbol_eq (name_of t) j then set_insert transcript_lt t ts else transcripts_of c j)
transcripts_of-stored c ts t j =
    transcripts_of-mark_dirty (put_transcripts c (name_of t) (set_insert transcript_lt t ts)) j
    ∙ transcripts_of-put c (name_of t) j (set_insert transcript_lt t ts)

has-insert :
    (ts : List Transcript) (t u : Transcript)
    → IsFiled (name_of t) ts
    → set_has transcript_lt u (set_insert transcript_lt t ts)
      ≡ (transcript_eq t u || set_has transcript_lt u ts)
has-insert ts t u f =
    set_has-set_insert transcript_lt-IsTotalOrder.weak t u ts f.0
    ∙ ap (λ b. b || set_has transcript_lt u ts) (equiv-transcript t u)

holds-stored :
    (c : Corpus) (ts : List Transcript) (t u : Transcript)
    → IsFiled (name_of t) ts
    → holds (stored c (name_of t) ts t) u ≡ (
        transcript_eq t u
        || (if symbol_eq (name_of t) (name_of u) then set_has transcript_lt u ts else holds c u))
holds-stored c ts t u f =
    rw (transcripts_of-stored c ts t (name_of u))
      (elim (Bool-cases (symbol_eq (name_of t) (name_of u))) [
        | inl same ↦ rw same (has-insert ts t u f)
        | inr other ↦ rw (other, transcript_eq_other t u other)
      ])

-- How an operation ends that stores `t`: it fails and `blocked` says why, or it gives a valid corpus,
-- marked dirty, that holds `t` and, of the others, those that `kept` names.
abbrev pub Ends : Option Corpus → Transcript → Bool → (Transcript → Bool) → Type 0
Ends result t blocked kept =
    ((result ≡ none) × (blocked ≡ true))
    ⊎ ((c' : Corpus) × (result ≡ some c')
        × (blocked ≡ false)
        × IsValid c'
        × (c'.dirty ≡ true)
        × ((u : Transcript) → holds c' u ≡ (transcript_eq t u || kept u)))

emplace_lem :
    (c : Corpus) (ts : List Transcript) (t : Transcript)
    → IsValid c
    → IsFiled (name_of t) ts
    → Ends
        (emplace_transcript c (name_of t) ts t)
        t
        (set_has transcript_lt t ts)
        (λ u. if symbol_eq (name_of t) (name_of u) then set_has transcript_lt u ts else holds c u)
unfolding emplace_transcript
emplace_lem c ts t v f = elim (Bool-cases (set_has transcript_lt t ts)) [
  | inl old ↦ inl (rw old, old)
  | inr new ↦ inr (
    stored c (name_of t) ts t,
    rw new,
    new,
    mark_dirty-IsValid _ (put_transcripts-IsValid c (name_of t) _ v (insert-IsFiled t ts f)),
    unfold mark_dirty in refl,
    λ u. holds-stored c ts t u f,
  )
]

-- What `getTranscripts` gives, and that the entry it may make changes nothing.
pub got-IsValid : (c : Corpus) (name : Symbol) → IsValid c → IsValid (get_transcripts c name).1
unfolding get_transcripts
got-IsValid c name v =
    put_transcripts-IsValid c name (transcripts_of c name) v (transcripts_of-IsFiled c name v)

pub transcripts_of-got :
    (c : Corpus) (name j : Symbol)
    → transcripts_of (get_transcripts c name).1 j ≡ transcripts_of c j
unfolding get_transcripts
transcripts_of-got c name j =
    transcripts_of-put c name j (transcripts_of c name) ∙ (elim (Bool-cases (symbol_eq name j)) [
      | inl e ↦ rw e (ap (transcripts_of c) ((symbol_eq_iff name j).0 e))
      | inr e ↦ rw e
    ])

-- The same end, said of an equal condition and of the same transcripts kept.
Ends-eq :
    (result : Option Corpus) (t : Transcript) (b b' : Bool) (k k' : Transcript → Bool)
    → b ≡ b'
    → ((u : Transcript) → k u ≡ k' u)
    → Ends result t b k
    → Ends result t b' k'
Ends-eq result t b b' k k' e f h =
    subst (λ q. Ends result t b' q) (fun_ext f) (subst (λ c. Ends result t c k) e h)

pub holds-got :
    (c : Corpus) (name : Symbol) (u : Transcript) → holds (get_transcripts c name).1 u ≡ holds c u
holds-got c name u = ap (set_has transcript_lt u) (transcripts_of-got c name (name_of u))

holds_named :
    (c : Corpus) (t u : Transcript)
    → symbol_eq (name_of t) (name_of u) ≡ true
    → set_has transcript_lt u (transcripts_of c (name_of t)) ≡ holds c u
holds_named c t u e =
    ap (λ n. set_has transcript_lt u (transcripts_of c n))
      ((symbol_eq_iff (name_of t) (name_of u)).0 e)

-- Where the set filed under the name of `t` lost the transcripts that fail `q`, and all of them bear
-- that name.
pub emplace-got :
    (c : Corpus) (ts : List Transcript) (t : Transcript) (q : Transcript → Bool)
    → IsValid c
    → IsFiled (name_of t) ts
    → ((u : Transcript)
        → set_has transcript_lt u ts
          ≡ (q u && set_has transcript_lt u (transcripts_of c (name_of t))))
    → ((u : Transcript) → symbol_eq (name_of t) (name_of u) ≡ false → q u ≡ true)
    → Ends
        (emplace_transcript (get_transcripts c (name_of t)).1 (name_of t) ts t)
        t
        (q t && holds c t)
        (λ u. q u && holds c u)
emplace-got c ts t q v f read only =
    Ends-eq (emplace_transcript (get_transcripts c (name_of t)).1 (name_of t) ts t) t _ _ _ _
      (read t) kept
      (emplace_lem (get_transcripts c (name_of t)).1 ts t (got-IsValid c (name_of t) v) f)
  where
    kept :
        (u : Transcript)
        → (if symbol_eq (name_of t) (name_of u)
            then set_has transcript_lt u ts
            else holds (get_transcripts c (name_of t)).1 u)
          ≡ (q u && holds c u)
    kept u = elim (Bool-cases (symbol_eq (name_of t) (name_of u))) [
      | inl e ↦ rw (e, read u, holds_named c t u e)
      | inr e ↦ rw (e, only u e, holds-got c (name_of t) u)
    ]

-- What is left of a set that filed `old`.
pub erase-got :
    (c : Corpus) (old t : Transcript)
    → IsValid c
    → name_of old ≡ name_of t
    → Ends
        (emplace_transcript
          (get_transcripts c (name_of t)).1
          (name_of t)
          (set_erase transcript_lt old (transcripts_of c (name_of t)))
          t)
        t
        (not (transcript_eq old t) && holds c t)
        (λ u. not (transcript_eq old u) && holds c u)
erase-got c old t v same =
    let f = transcripts_of-IsFiled c (name_of t) v in
    emplace-got c (set_erase transcript_lt old (transcripts_of c (name_of t))) t
      (λ u. not (transcript_eq old u)) v
      (
        set_erase-IsSorted transcript_lt-IsTotalOrder.weak old _ f.0,
        All-set_erase transcript_lt-IsTotalOrder.weak (λ u. name_of u ≡ name_of t) old _ f.1,
      )
      (λ u.
        set_has-set_erase transcript_lt-IsTotalOrder.weak old u _ f.0
        ∙ ap (λ b. not b && set_has transcript_lt u (transcripts_of c (name_of t)))
            (equiv-transcript old u))
      (λ u e. ap not (
        transcript_eq_other old u (subst (λ n. symbol_eq n (name_of u) ≡ false) (path_sym same) e)))
