-- ===== src/Test/Counters.antt =====
-- `CounterClasses` of src/test.cpp, and the counters of a run as they enter the path trajectory.
use photesthesis.Shared.{ℕ, zero, suc, List, [], ◌∷◌, ◌++◌, map, replicate, get_or}
use Prim.Native.Nat.{bit_and}

abbrev row8 : ℕ → List ℕ
row8 n = replicate 8 n

abbrev rows8 : ℕ → ℕ → List ℕ
rows8 zero n = []
rows8 (suc k) n = row8 n ++ rows8 k n

-- The table: its first eight entries, and 31 rows of eight.
abbrev pub counter_classes : List ℕ
counter_classes =
    0 ∷ 1 ∷ 2 ∷ 4 ∷ 8 ∷ 8 ∷ 8 ∷ 8 ∷ row8 16 ++ (rows8 2 32 ++ (rows8 12 64 ++ rows8 16 128))

-- `CounterClasses[n]`.
unfoldable pub class_of : ℕ → ℕ
class_of n = get_or counter_classes n 0

-- The two loops of `finiPathTrajectory`: over the counters alone, and over them and the mask.
unfoldable pub simplify : List ℕ → List ℕ
unfolding class_of
simplify cs = map class_of cs

unfoldable pub simplify_masked : List ℕ → List ℕ → List ℕ
unfolding class_of
simplify_masked [] mask = []
simplify_masked (c ∷ cs) [] = c ∷ cs
simplify_masked (c ∷ cs) (m ∷ mask) = bit_and (class_of c) m ∷ simplify_masked cs mask
