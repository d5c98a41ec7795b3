-- ===== src/Grammar/Covering/Covered.antt =====
-- `kPathCoveringOrMinimalExpansion` of src/grammar.cpp covers k-paths: the values of its first list
-- pass those that it takes off the set, and it gives none up that is ahead.
use photesthesis.Shared.{ℕ, ◌≡◌, sym as path_sym, List, [], ◌∷◌, ◌++◌}
use photesthesis.Symbol.{Symbol}
use photesthesis.Grammar.{Context, Ref, Grammar, ok}
use photesthesis.Grammar.Covering.{KPath, Expansions, k_path_covering_or_minimal_expansion}
use photesthesis.Grammar.Covering.Atoms.{AreDerived}
use photesthesis.Grammar.Covering.Laws.{IsCoveringOrLeast}
use photesthesis.Grammar.Covering.Passing.{IsCovering}
use photesthesis.Grammar.Covering.Chosen.{PassesAt, NoneAt}

-- What a call gives: the context as it was, values that the rule derives, one at least, and the
-- k-paths that they cover.
abbrev pub Returned : Grammar → ℕ → ℕ → List Ref → Ref → Context → List KPath → Type 0
Returned g d k path r c paths =
    (made : Expansions × (Context × List KPath)) × (k_path_covering_or_minimal_expansion g d k
        (path ++ (r ∷ [])) c paths
      ≡ ok made)
    × (made.1.0 ≡ c)
    × AreDerived g c r.rule_name d made.0
    × IsCoveringOrLeast made.0
    × IsCovering (PassesAt g k d path c r) (NoneAt g k d path c r) paths made
