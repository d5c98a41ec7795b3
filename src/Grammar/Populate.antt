-- ===== src/Grammar/Populate.antt =====
-- `randomlyPopulatePlan` of src/grammar.cpp gives each parameter a value of its rule.
use photesthesis.Shared.{
  ℕ, suc, ◌≡◌, refl, ◌∙◌, ap, sym as path_sym, false, ◌||◌, [], ◌∷◌, ◌++◌, append_assoc, append-nil,
  some, arith, All,
}
use photesthesis.Symbol.{Symbol, symbol_eq}
use photesthesis.Value.{Value}
use photesthesis.VecMap.{vec_map_has, vec_map_add}
use photesthesis.Plan.{Plan, Params, ParamSpecs, new_plan, add_param}
use photesthesis.Grammar.{Grammar, Context, ok, new_context}
use photesthesis.Grammar.Random.{populate_params, randomly_populate_plan}
use photesthesis.Grammar.Language.{Derives}
use photesthesis.Grammar.Complete.{HasRule, IsComplete}
use photesthesis.Grammar.Progress.{IsUniform, random_value_from_rule-Succeeds}

-- The parameters are those of the specifications, in order, each with a value of its rule.
abbrev pub ArePopulated : Grammar → Context → ℕ → ParamSpecs → Params → Type 0
ArePopulated g c d [] [] = Unit
ArePopulated g c d (spec ∷ specs) (param ∷ params) =
    (param.0 ≡ spec.0) × Derives g c spec.1 d param.1 × ArePopulated g c d specs params
ArePopulated g c d _ _ = ⊥

-- No name stands twice.
abbrev pub AreDistinct : ParamSpecs → Type 0
AreDistinct [] = Unit
AreDistinct (spec ∷ specs) = All (λ t. symbol_eq spec.0 t.0 ≡ false) specs × AreDistinct specs

vec_map_has-append :
    (m : Params) (k j : Symbol) (v : Value)
    → vec_map_has (m ++ ((k, v) ∷ [])) j ≡ (vec_map_has m j || symbol_eq k j)
unfolding vec_map_has
vec_map_has-append [] k j v = ground arith
vec_map_has-append (p ∷ m) k j v = ground (arith, vec_map_has-append m k j v)

vec_map_add_fresh :
    (m : Params) (k : Symbol) (v : Value)
    → vec_map_has m k ≡ false
    → vec_map_add m k v ≡ some (m ++ ((k, v) ∷ []))
unfolding vec_map_add
vec_map_add_fresh m k v h = rw h

add_param_fresh :
    (p : Plan) (k : Symbol) (v : Value)
    → vec_map_has p.params k ≡ false
    → add_param p k v ≡ some (record p { params = p.params ++ ((k, v) ∷ []) })
unfolding add_param
add_param_fresh p k v h = rw (add_param, vec_map_add_fresh p.params k v h)

still_fresh :
    (m : Params) (k : Symbol) (v : Value) (specs : ParamSpecs)
    → All (λ t. vec_map_has m t.0 ≡ false) specs
    → All (λ t. symbol_eq k t.0 ≡ false) specs
    → All (λ t. vec_map_has (m ++ ((k, v) ∷ [])) t.0 ≡ false) specs
still_fresh m k v [] h d = tt
still_fresh m k v (t ∷ specs) h d =
    (rw (vec_map_has-append m k t.0 v, h.0, d.0), still_fresh m k v specs h.1 d.1)

none_at_hand : (ts : ParamSpecs) → All (λ t. vec_map_has {V = Value} [] t.0 ≡ false) ts
unfolding vec_map_has
none_at_hand [] = tt
none_at_hand (t ∷ ts) = (refl, none_at_hand ts)

module _ {Gen : Type 0} (uniform : ℕ → Gen → ℕ × Gen) where
  populate_params-ArePopulated :
      IsUniform uniform
      → (g : Grammar) → IsComplete g
      → (d : ℕ) (specs rest : ParamSpecs) → All (λ t. HasRule g t.1) rest
      → AreDistinct rest
      → (gen : Gen) (p : Plan) → All (λ t. vec_map_has p.params t.0 ≡ false) rest
      → (made : Params) × (gen' : Gen) × (populate_params uniform g (suc d) specs rest gen p
          ≡ ok (record p { params = p.params ++ made }, gen'))
        × ArePopulated g (new_context specs) (suc d) rest made
  unfolding populate_params
  populate_params-ArePopulated u g w d specs [] rules names gen p fresh =
      ([], gen, ap (λ ps. ok (record p { params = ps }, gen)) (path_sym (append-nil p.params)), tt)
  populate_params-ArePopulated u g w d specs (t ∷ rest) rules names gen p fresh =
      let (v, gen₁, e, derived, _) =
        random_value_from_rule-Succeeds uniform u g w d t.1 rules.0 gen (new_context specs) in
      let next : Plan = record p { params = p.params ++ ((t.0, v) ∷ []) } in
      let (made, gen₂, q, all) =
        populate_params-ArePopulated u g w d specs rest rules.1 names.1 gen₁ next
          (still_fresh p.params t.0 v rest fresh.1 names.0) in
      (
        (t.0, v) ∷ made,
        gen₂,
        rw (e, add_param_fresh p t.0 v fresh.0)
            (q
              ∙ ap (λ ps. ok (record p { params = ps }, gen₂))
                  (append_assoc p.params ((t.0, v) ∷ []) made)),
        (refl, derived, all),
      )

  -- Where each rule of the grammar has a production that is always enabled and has no references, each
  -- production has an atom, a right flag for references and refers only to rules of the grammar, and
  -- the generator draws in range: `randomlyPopulatePlan` returns for every depth limit but 0 and all
  -- specifications with distinct names and rules of the grammar. The plan bears the name given, is
  -- not manual, has no comments, and its parameters are those of the specifications, in order, each
  -- with a value that its rule derives within the limit in the context of the specifications.
  pub randomly_populate_plan-ArePopulated :
      IsUniform uniform
      → (g : Grammar) → IsComplete g
      → (d : ℕ) (name : Symbol) (specs : ParamSpecs) → All (λ t. HasRule g t.1) specs
      → AreDistinct specs
      → (gen : Gen)
      → (made : Params) × (gen' : Gen) × (randomly_populate_plan uniform g name specs gen (suc d)
          ≡ ok (record { test_name = name; is_manual = false; comments = []; params = made }, gen'))
        × ArePopulated g (new_context specs) (suc d) specs made
  unfolding randomly_populate_plan
  randomly_populate_plan-ArePopulated u g w d name specs rules names gen =
      populate_params-ArePopulated u g w d specs specs rules names gen (new_plan name false)
        (none_at_hand specs)
