-- ===== src/Grammar/Paths.antt =====
-- The k-path sets of src/grammar.cpp: `expandKPathPrefix` and `generateKPathSet`.
use photesthesis.Shared.{
  ℕ, zero, suc, ◌-◌, Bool, not, List, [], ◌∷◌, ◌++◌, if◌then◌else◌, length, ltb, ◌==◌,
}
use photesthesis.Shared.SetOf.{set_has, set_insert, set_insert_all}
use photesthesis.Symbol.{Symbol}
use photesthesis.Plan.{ParamSpecs}
use photesthesis.Grammar.{
  Atom, Ref, Production, lit, ref, Context, Grammar, Result, ok, error, assertion, undefined,
  out_of_fuel, ◌>>=◌, ◌>>◌, assert, or_error, new_context, push_all, pop, get_root_ref,
  get_active_productions,
}
use photesthesis.Grammar.Cycling.{is_empty}
use photesthesis.Grammar.Covering.{KPath, kpath_lt}

-- `std::set<RefPtr>` is ordered by the addresses.
abbrev pub ref_lt : Ref → Ref → Bool
ref_lt r s = ltb r.address s.address

-- The paths found, the context, and the references that paths were started from.
abbrev pub Explored : Type 0
Explored = List KPath × (Context × List Ref)

abbrev pub Explore : Type 0
Explore = KPath → Context → List Ref → Result Explored

-- The last atom of a path, which must be a reference.
unfoldable pub anchor_of : KPath → Result Ref
anchor_of [] = error assertion
anchor_of (lit _ _ ∷ []) = error assertion
anchor_of (ref r ∷ []) = ok r
anchor_of (a ∷ b ∷ rest) = anchor_of (b ∷ rest)

abbrev pub add_paths : List KPath → Explored → Result Explored
add_paths res found = ok (set_insert_all kpath_lt found.0 res, found.1)

-- A path is also started from a reference that none was started from.
unfoldable pub explore_root : Explore → Ref → Explored → Result Explored
explore_root expand r found = if set_has ref_lt r found.1.1 then ok found else (do
  restarted ← expand (ref r ∷ []) found.1.0 (set_insert ref_lt r found.1.1)
  add_paths found.0 restarted)

-- A round of the loop over the atoms of a production.
unfoldable pub explore_atom : Explore → ℕ → KPath → Atom → Explored → Result Explored
unfolding explore_root
explore_atom expand k prefix (lit a v) (res, (c, roots)) =
    if length prefix == k - 1
    then (do extended ← expand (prefix ++ (lit a v ∷ [])) c roots; add_paths res extended)
    else ok (res, (c, roots))
explore_atom expand k prefix (ref r) (res, (c, roots)) = do
  extended ← expand (prefix ++ (ref r ∷ [])) (push_all r.ctx_ext c) roots
  added ← add_paths res extended
  found ← explore_root expand r added
  popped ← or_error undefined (pop (length r.ctx_ext) found.1.0)
  ok (found.0, (popped, found.1.1))

unfoldable pub explore_atoms : Explore → ℕ → KPath → List Atom → Explored → Result Explored
unfolding explore_atom
explore_atoms expand k prefix [] found = ok found
explore_atoms expand k prefix (atom ∷ atoms) found = do
  next ← explore_atom expand k prefix atom found
  explore_atoms expand k prefix atoms next

unfoldable pub explore_productions :
    Explore → ℕ → KPath → List Production → Explored → Result Explored
unfolding explore_atoms
explore_productions expand k prefix [] found = ok found
explore_productions expand k prefix (prod ∷ prods) found = do
  next ← explore_atoms expand k prefix prod.atoms found
  explore_productions expand k prefix prods next

-- `expandKPathPrefix`; a call costs a unit of fuel.
unfoldable pub expand_k_path_prefix : Grammar → ℕ → ℕ → Explore
unfolding anchor_of explore_productions
expand_k_path_prefix g zero k prefix c roots = error out_of_fuel
expand_k_path_prefix g (suc n) k prefix c roots =
    let longer = (do
      anchor ← anchor_of prefix
      prods ← get_active_productions g anchor.rule_name k c
      explore_productions (expand_k_path_prefix g n k) k prefix prods ([], (c, roots))) in
    do
      assert (not (k == 0))
      assert (not (is_empty prefix))
      if length prefix == k then ok (prefix ∷ [], (c, roots)) else longer

-- `generateKPathSet`, with the fuel for the expansion.
unfoldable pub generate_k_path_set : Grammar → ℕ → ℕ → Symbol → ParamSpecs → Result (List KPath)
unfolding expand_k_path_prefix
generate_k_path_set g fuel k root specs = do
  root_ref ← get_root_ref g root
  found ← expand_k_path_prefix g fuel k (ref root_ref ∷ []) (new_context specs) (root_ref ∷ [])
  ok found.0
