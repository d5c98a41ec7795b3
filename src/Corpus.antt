-- ===== src/Corpus.antt =====
-- `Corpus` of include/photesthesis/corpus.h and src/corpus.cpp: for each test name the sorted set of
-- its transcripts. A failed assertion is `none`: the build defines no NDEBUG.
pub mod Invariant
pub mod Store
pub mod Operations
pub mod Examples
use photesthesis.Shared.{
  ℕ, Bool, true, false, not, List, [], ◌∷◌, Option, none, some, if◌then◌else◌,
}
use photesthesis.Shared.SetOf.{set_has, set_insert, set_erase}
use photesthesis.Shared.MapOf.{map_find, map_set}
use photesthesis.Symbol.{Bytes, Symbol, symbol_eq, symbol_lt}
use photesthesis.Plan.{Plan, plan_eq}
use photesthesis.Transcript.{Transcript, name_of, transcript_lt}

pub record Corpus : Type 0 where
  pub path : Bytes
  pub save_on_destroy : Bool
  pub dirty : Bool
  pub transcripts : List (Symbol × List Transcript)

abbrev pub or_empty : Option (List Transcript) → List Transcript
or_empty none = []
or_empty (some ts) = ts

-- What `mTranscripts[name]` holds, which is empty where there is no entry.
unfoldable pub transcripts_of : Corpus → Symbol → List Transcript
transcripts_of c name = or_empty (map_find symbol_lt name c.transcripts)

-- An assignment through the reference that `getTranscripts` returns.
unfoldable pub put_transcripts : Corpus → Symbol → List Transcript → Corpus
put_transcripts c name ts = record c { transcripts = map_set symbol_lt name ts c.transcripts }

-- `getTranscripts`: the subscript operator makes a missing entry.
unfoldable pub get_transcripts : Corpus → Symbol → List Transcript × Corpus
get_transcripts c name = (transcripts_of c name, put_transcripts c name (transcripts_of c name))

unfoldable pub mark_dirty : Corpus → Corpus
mark_dirty c = record c { dirty = true }

-- `tss.emplace(ts)` with the assertion that it was inserted, and `markDirty`.
unfoldable pub emplace_transcript : Corpus → Symbol → List Transcript → Transcript → Option Corpus
emplace_transcript c name tss ts =
    if set_has transcript_lt ts tss
    then none
    else some (mark_dirty (put_transcripts c name (set_insert transcript_lt ts tss)))

unfoldable pub add_transcript : Corpus → Transcript → Option Corpus
add_transcript c ts =
    let got = get_transcripts c (name_of ts) in emplace_transcript got.1 (name_of ts) got.0 ts

unfoldable pub replace_transcript : Corpus → Transcript → Transcript → Option Corpus
replace_transcript c old new =
    if not (symbol_eq (name_of old) (name_of new))
    then none
    else (let got = get_transcripts c (name_of old) in
        if not (set_has transcript_lt old got.0)
        then none
        else emplace_transcript got.1 (name_of old) (set_erase transcript_lt old got.0) new)

-- The loop of `updateTranscript`: the first transcript with this plan is erased; `none` if there is
-- none.
unfoldable pub erase_plan : Plan → List Transcript → Option (List Transcript)
erase_plan p [] = none
erase_plan p (t ∷ ts) =
    if plan_eq t.plan p
    then some ts
    else (elim (erase_plan p ts) [ none ↦ none | some rest ↦ some (t ∷ rest) ])

-- The assertion that one was erased, and what follows it.
abbrev pub emplace_erased : Corpus → Transcript → Option (List Transcript) → Option Corpus
emplace_erased c ts none = none
emplace_erased c ts (some rest) = emplace_transcript c (name_of ts) rest ts

unfoldable pub update_transcript : Corpus → Transcript → Option Corpus
update_transcript c ts =
    let got = get_transcripts c (name_of ts) in emplace_erased got.1 ts (erase_plan ts.plan got.0)
