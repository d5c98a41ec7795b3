-- ===== src/Grammar/Covering.antt =====
-- `kPathCoveringOrMinimalExpansion` of src/grammar.cpp: the expansions of a rule that cover k-paths,
-- or the least one if none does. Atoms are ordered by their addresses, as shared pointers are.
pub mod Atoms
pub mod Laws
pub mod Steps
pub mod Progress
pub mod Passing
pub mod Found
pub mod Covered
pub mod Chosen
pub mod Elements
use photesthesis.Shared.{
  ℕ, zero, suc, ◌-◌, Bool, true, false, not, ◌&&◌, ◌||◌, List, [], ◌∷◌, ◌++◌, Option, none, some,
  map, if◌then◌else◌, length, take, ltb, leb, ◌==◌,
}
use photesthesis.Shared.Order.{lex}
use photesthesis.Shared.SetOf.{set_has, set_insert, set_erase}
use photesthesis.Symbol.{Symbol}
use photesthesis.Value.{Value, sym, of_list, value_lt}
use photesthesis.Grammar.{
  Atom, Ref, Production, lit, ref, Context, Grammar, Result, ok, error, depth_reached_zero,
  assertion, undefined, ◌>>=◌, ◌>>◌, assert, or_error, push_all, pop, get_active_productions,
}
use photesthesis.Grammar.Cycling.{is_empty, extend_by_cycling}

abbrev pub KPath : Type 0
KPath = List Atom

abbrev pub address_of : Atom → ℕ
address_of (lit a _) = a
address_of (ref r) = r.address

abbrev pub kpath_lt : KPath → KPath → Bool
kpath_lt = lex (λ a b. ltb (address_of a) (address_of b))

abbrev drop : {A : Type 0} → ℕ → List A → List A
drop zero xs = xs
drop (suc n) [] = []
drop (suc n) (x ∷ xs) = drop n xs

-- The last `k - 1` references of a path that is as long; a shorter one gives nothing.
unfoldable pub suffix : ℕ → List Ref → KPath
suffix k path =
    if leb (k - 1) (length path) then map ref (drop (length path - (k - 1)) path) else []

unfoldable pub last_ref : List Ref → Result Ref
last_ref [] = error assertion
last_ref (r ∷ []) = ok r
last_ref (r ∷ s ∷ rs) = last_ref (s ∷ rs)

-- The first atom that completes a k-path still uncovered takes it off the set.
unfoldable pub cover_first : KPath → List Atom → List KPath → Bool × List KPath
cover_first kpath [] paths = (false, paths)
cover_first kpath (atom ∷ atoms) paths =
    let rest = cover_first kpath atoms paths in
    if set_has kpath_lt (kpath ++ (atom ∷ [])) paths
    then (true, set_erase kpath_lt (kpath ++ (atom ∷ [])) paths)
    else rest

-- The set of the covering expansions and that of the others.
abbrev pub Expansions : Type 0
Expansions = List Value × List Value

abbrev pub ExpandRef : Type 0
ExpandRef = List Ref → Context → List KPath → Result (Expansions × (Context × List KPath))

-- What the loop over the atoms of a production has at hand.
pub record Work : Type 0 where
  pub covers : Bool
  pub prefixes : List (List Value)
  pub context : Context
  pub paths : List KPath

-- The expansions that a reference takes part with.
unfoldable pub choose : Bool → Expansions → Result (List Value × Bool)
choose covers (c ∷ cs, others) = ok (c ∷ cs, true)
choose covers ([], others) = do assert (length others == 1); ok (others, covers)

unfoldable pub expand_atom :
    ExpandRef → List Ref → Atom → Work → Result (List Value × (Bool × (Context × List KPath)))
unfolding choose
expand_atom value path (lit _ v) w = ok (v ∷ [], (w.covers, (w.context, w.paths)))
expand_atom value path (ref r) w = do
  sub ← value (path ++ (r ∷ [])) (push_all r.ctx_ext w.context) w.paths
  popped ← or_error undefined (pop (length r.ctx_ext) sub.1.0)
  chosen ← choose w.covers sub.0
  ok (chosen.0, (chosen.1, (popped, sub.1.1)))

unfoldable pub expand_production : ExpandRef → List Ref → List Atom → Work → Result Work
unfolding expand_atom
expand_production value path [] w = ok w
expand_production value path (atom ∷ atoms) w = do
  one ← expand_atom value path atom w
  longer ← or_error assertion (extend_by_cycling w.prefixes one.0)
  expand_production value path atoms
      record { covers = one.1.0; prefixes = longer; context = one.1.1.0; paths = one.1.1.1 }

unfoldable pub insert_lists : List (List Value) → List Value → List Value
insert_lists [] vals = vals
insert_lists (prefix ∷ prefixes) vals =
    insert_lists prefixes (set_insert value_lt (of_list prefix) vals)

abbrev pub add_expansions : Bool → List (List Value) → Expansions → Expansions
add_expansions true prefixes found = (insert_lists prefixes found.0, found.1)
add_expansions false prefixes found = (found.0, insert_lists prefixes found.1)

unfoldable pub expand_productions :
    ExpandRef
    → List Ref
    → KPath
    → Symbol
    → List Production
    → Expansions
    → Context
    → List KPath
    → Result (Expansions × (Context × List KPath))
unfolding expand_production insert_lists
expand_productions value path kpath rule [] found c paths = ok (found, (c, paths))
expand_productions value path kpath rule (prod ∷ prods) found c paths =
    let marked = cover_first kpath prod.atoms paths in
    do
      w ← expand_production value path prod.atoms record {
        covers = marked.0;
        prefixes = (sym rule ∷ []) ∷ [];
        context = c;
        paths = marked.1;
      }
      expand_productions value path kpath rule prods (add_expansions w.covers w.prefixes found)
          w.context w.paths

-- The sets as they are returned: the covering ones, or the least of the others.
unfoldable pub least : Expansions → Result Expansions
least ([], []) = error assertion
least ([], v ∷ vs) = ok ([], v ∷ [])
least (c ∷ cs, others) = ok (c ∷ cs, [])

unfoldable pub k_path_covering_or_minimal_expansion : Grammar → ℕ → ℕ → ExpandRef
unfolding last_ref expand_productions least
k_path_covering_or_minimal_expansion g zero k path c paths = error depth_reached_zero
k_path_covering_or_minimal_expansion g (suc d) k path c paths = do
  last ← last_ref path
  assert (not (k == 0))
  prods ← get_active_productions g last.rule_name (suc d) c
  found ←
      expand_productions (k_path_covering_or_minimal_expansion g d k) path (suffix k path)
        last.rule_name prods ([], []) c paths
  both ← least found.0
  ok (both, found.1)
