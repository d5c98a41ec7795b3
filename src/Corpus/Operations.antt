-- ===== src/Corpus/Operations.antt =====
-- `addTranscript`, `replaceTranscript` and `updateTranscript`: what they do to the transcripts that a
-- corpus holds, assertions included.
use photesthesis.Shared.{
  ◌≡◌, refl, ◌⊎◌, ap, sym as path_sym, subst, true, false, not, ◌&&◌, ◌||◌, List, [], ◌∷◌, none,
  some, All, Bool-cases, inl, inr, In, here, there, All-In,
}
use photesthesis.Shared.SetOf.{IsSorted, set_has, set_erase}
use photesthesis.Shared.SetOf.Members.{In-set_has, set_has-In, set_erase-first, set_erase-later}
use photesthesis.Symbol.{symbol_eq}
use photesthesis.Value.Equality.{symbol_eq_iff}
use photesthesis.Plan.{Plan, plan_eq}
use photesthesis.Plan.Order.{plan_eq_iff}
use photesthesis.Transcript.{Transcript, name_of, transcript_lt, transcript_eq}
use photesthesis.Transcript.Order.{transcript_lt-IsTotalOrder}
use photesthesis.Corpus.{
  Corpus, transcripts_of, get_transcripts, emplace_transcript, emplace_erased, add_transcript,
  replace_transcript, update_transcript, erase_plan,
}
use photesthesis.Corpus.Invariant.{IsValid, transcripts_of-IsFiled}
use photesthesis.Corpus.Store.{holds, Ends, emplace-got, erase-got}

-- `addTranscript` on a valid corpus: the assertion fails exactly if the corpus holds the transcript;
-- else the corpus stays valid, is dirty, and holds what it held and the new transcript.
pub add_transcript_lem :
    (c : Corpus) (t : Transcript) → IsValid c → Ends (add_transcript c t) t (holds c t) (holds c)
unfolding add_transcript get_transcripts transcripts_of
add_transcript_lem c t v =
    emplace-got c (transcripts_of c (name_of t)) t (λ u. true) v
      (transcripts_of-IsFiled c (name_of t) v) (λ u. refl) (λ u e. refl)

-- `replaceTranscript` on a valid corpus: it fails exactly if the names differ, the old transcript is
-- not held, or the new one is held and is not the old one; else the corpus stays valid, is dirty, and
-- holds the new one and what it held but the old one.
pub replace_transcript_lem :
    (c : Corpus) (old t : Transcript)
    → IsValid c
    → Ends
        (replace_transcript c old t)
        t
        (not (symbol_eq (name_of old) (name_of t))
          || (not (holds c old) || (not (transcript_eq old t) && holds c t)))
        (λ u. not (transcript_eq old u) && holds c u)
unfolding replace_transcript get_transcripts transcripts_of
replace_transcript_lem c old t v = elim (Bool-cases (symbol_eq (name_of old) (name_of t))) [
  | inr other ↦ inl (rw other, rw other)
  | inl same ↦ elim (Bool-cases (holds c old)) [
    | inr missing ↦ inl (rw (same, missing), rw (same, missing))
    | inl held ↦
        let e = (symbol_eq_iff (name_of old) (name_of t)).0 same in
        rw (same, held)
          (subst
            (λ n.
              Ends
                (emplace_transcript (get_transcripts c n).1 n
                  (set_erase transcript_lt old (transcripts_of c n)) t)
                t (not (transcript_eq old t) && holds c t)
                (λ u. not (transcript_eq old u) && holds c u))
            (path_sym e) (erase-got c old t v e))
  ]
]

-- The loop of `updateTranscript` either finds no transcript with the plan, or erases one.
erase_plan_lem :
    (p : Plan) (ts : List Transcript)
    → IsSorted transcript_lt ts
    → ((erase_plan p ts ≡ none) × All (λ u. plan_eq u.plan p ≡ false) ts)
      ⊎ ((old : Transcript) × In old ts
          × (plan_eq old.plan p ≡ true)
          × (erase_plan p ts ≡ some (set_erase transcript_lt old ts)))
unfolding erase_plan
erase_plan_lem p [] s = inl (refl, tt)
erase_plan_lem p (t ∷ ts) s = elim (Bool-cases (plan_eq t.plan p)) [
  | inl e ↦ inr (
    t,
    here refl,
    e,
    rw e (ap some (path_sym (set_erase-first transcript_lt-IsTotalOrder.weak t ts))),
  )
  | inr e ↦ elim (erase_plan_lem p ts s.1) [
    | inl (q, none_there) ↦ inl (rw (e, q), (e, none_there))
    | inr (old, m, q, r) ↦ inr (
      old,
      there m,
      q,
      rw (e, r) (ap some (path_sym (set_erase-later transcript_lt old t ts s m))),
    )
  ]
]

-- Equal plans are of one test.
named : (u t : Transcript) → plan_eq u.plan t.plan ≡ true → name_of u ≡ name_of t
named u t e = ap (λ p. p.test_name) ((plan_eq_iff u.plan t.plan).0 e)

-- `updateTranscript` on a valid corpus: it fails if no transcript held has the plan of the new one;
-- else it erases one that has, and ends as `replaceTranscript` of that one does.
pub update_transcript_lem :
    (c : Corpus) (t : Transcript)
    → IsValid c
    → ((update_transcript c t ≡ none)
        × ((u : Transcript) → holds c u ≡ true → plan_eq u.plan t.plan ≡ false))
      ⊎ ((old : Transcript) × (plan_eq old.plan t.plan ≡ true)
          × (holds c old ≡ true)
          × Ends
              (update_transcript c t)
              t
              (not (transcript_eq old t) && holds c t)
              (λ u. not (transcript_eq old u) && holds c u))
unfolding update_transcript get_transcripts transcripts_of
update_transcript_lem c t v =
    let f = transcripts_of-IsFiled c (name_of t) v in
    elim (erase_plan_lem t.plan (transcripts_of c (name_of t)) f.0) [
      | inl (q, none_there) ↦ inl (
        ap (emplace_erased (get_transcripts c (name_of t)).1 t) q,
        λ u h. elim (Bool-cases (plan_eq u.plan t.plan)) [
          | inr e ↦ e
          | inl e ↦
              All-In (λ w. plan_eq w.plan t.plan ≡ false) none_there
                (set_has-In transcript_lt-IsTotalOrder u _ (
                  subst (λ n. set_has transcript_lt u (transcripts_of c n) ≡ true) (named u t e) h))
        ],
      )
      | inr (old, m, q, r) ↦ inr (
        old,
        q,
        subst (λ n. set_has transcript_lt old (transcripts_of c n) ≡ true)
            (path_sym (named old t q)) (In-set_has transcript_lt-IsTotalOrder.weak old _ f.0 m),
        subst
            (λ o.
              Ends o t (not (transcript_eq old t) && holds c t)
                (λ u. not (transcript_eq old u) && holds c u))
            (path_sym (ap (emplace_erased (get_transcripts c (name_of t)).1 t) r))
            (erase-got c old t v (named old t q)),
      )
    ]
