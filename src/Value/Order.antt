-- ===== src/Value/Order.antt =====
-- `operator<` of src/value.cpp is a strict total order.
use photesthesis.Shared.{
  ℕ, zero, suc, ◌≤◌, ◌<◌, ◌≡◌, refl, sym as path_sym, ◌∙◌, Bool, true, false, arith, ltb, ap,
  if◌then◌else◌,
}
use Prim.Native.Nat.{max}
use mathlib.Core.Path.{ap₂}
use photesthesis.Shared.Ints.{int_lt-IsTotalOrder}
use photesthesis.Shared.Order.{
  lex, lex-IsTotalOrder, ltb-IsTotalOrder, bool_lt-IsTotalOrder, IsWeakOrder, IsConnected,
  IsTotalOrder,
}
use photesthesis.Symbol.{symbol_lt, string_lt}
use photesthesis.Value.{
  Value, Cells, nil, pair, sym, bool, int64, blob, string, null, cell, lt_within, cells_lt,
  cells_length, depth, cells_depth, value_lt,
}

pub string_lt-IsTotalOrder : IsTotalOrder string_lt
unfolding string_lt
string_lt-IsTotalOrder = lex-IsTotalOrder ltb-IsTotalOrder

pub symbol_lt-IsTotalOrder : IsTotalOrder symbol_lt
unfolding symbol_lt string_lt
symbol_lt-IsTotalOrder = lex-IsTotalOrder ltb-IsTotalOrder

bytes_lt-IsTotalOrder : IsTotalOrder (lex ltb)
bytes_lt-IsTotalOrder = lex-IsTotalOrder ltb-IsTotalOrder

-- The loop over two lists, for any comparison of the elements.
module _ {lt : Value → Value → Bool} (o : IsWeakOrder lt) where
  cells_lt_asym : (t u : Cells) → cells_lt lt t u ≡ true → cells_lt lt u t ≡ false
  unfolding cells_lt
  cells_lt_asym null null h = refl
  cells_lt_asym null (cell y u) h = refl
  cells_lt_asym (cell x t) null h = ground arith
  cells_lt_asym (cell x t) (cell y u) h = ground (arith, o.asym x y, cells_lt_asym t u)

  cells_lt_cotrans :
      (t u v : Cells) → cells_lt lt t v ≡ true → cells_lt lt t u ≡ false → cells_lt lt u v ≡ true
  unfolding cells_lt
  cells_lt_cotrans null null v p q = p
  cells_lt_cotrans null (cell y u) v p q = ground arith
  cells_lt_cotrans (cell x t) u null p q = ground arith
  cells_lt_cotrans (cell x t) null (cell z v) p q = refl
  cells_lt_cotrans (cell x t) (cell y u) (cell z v) p q = ground (
    arith,
    o.asym x y,
    o.asym y z,
    o.asym x z,
    o.cotrans x y z,
    o.cotrans z y x,
    o.cotrans y x z,
    o.cotrans y z x,
    o.cotrans z x y,
    cells_lt_cotrans t u v,
  )

-- Two lists: the shorter is less, and `r` decides between lists of one length.
abbrev pub by_length : ℕ → ℕ → Bool → Bool
by_length n m r = if ltb n m then true else if ltb m n then false else r

by_length_asym :
    (n m : ℕ) (r r' : Bool)
    → (r ≡ true → r' ≡ false)
    → by_length n m r ≡ true
    → by_length m n r' ≡ false
by_length_asym n m r r' k h = ground arith

by_length_cotrans :
    (n m k : ℕ) (r s t : Bool)
    → (r ≡ true → s ≡ false → t ≡ true)
    → by_length n k r ≡ true
    → by_length n m s ≡ false
    → by_length m k t ≡ true
by_length_cotrans n m k r s t f p q = ground arith

-- One step of fuel more keeps a strict weak order a strict weak order.
module _ (f : ℕ) (o : IsWeakOrder (lt_within f)) where
  asym_step : (a b : Value) → lt_within (suc f) a b ≡ true → lt_within (suc f) b a ≡ false
  unfolding lt_within
  asym_step nil nil h = refl
  asym_step (pair x t) (pair y u) h =
      by_length_asym (cells_length (cell x t)) (cells_length (cell y u)) _ _
        (cells_lt_asym o (cell x t) (cell y u)) h
  asym_step (sym a) (sym b) h = symbol_lt-IsTotalOrder.asym a b h
  asym_step (bool a) (bool b) h = bool_lt-IsTotalOrder.asym a b h
  asym_step (int64 a) (int64 b) h = int_lt-IsTotalOrder.asym a b h
  asym_step (blob a) (blob b) h = bytes_lt-IsTotalOrder.asym a b h
  asym_step (string a) (string b) h = string_lt-IsTotalOrder.asym a b h
  asym_step _ _ h = ground arith

  cotrans_step :
      (a b c : Value)
      → lt_within (suc f) a c ≡ true
      → lt_within (suc f) a b ≡ false
      → lt_within (suc f) b c ≡ true
  unfolding lt_within
  cotrans_step nil nil nil p q = p
  cotrans_step (pair x t) (pair y u) (pair z v) p q =
      by_length_cotrans (cells_length (cell x t)) (cells_length (cell y u))
        (cells_length (cell z v)) _ _ _ (cells_lt_cotrans o (cell x t) (cell y u) (cell z v)) p q
  cotrans_step (sym a) (sym b) (sym c) p q = symbol_lt-IsTotalOrder.cotrans a b c p q
  cotrans_step (bool a) (bool b) (bool c) p q = bool_lt-IsTotalOrder.cotrans a b c p q
  cotrans_step (int64 a) (int64 b) (int64 c) p q = int_lt-IsTotalOrder.cotrans a b c p q
  cotrans_step (blob a) (blob b) (blob c) p q = bytes_lt-IsTotalOrder.cotrans a b c p q
  cotrans_step (string a) (string b) (string c) p q = string_lt-IsTotalOrder.cotrans a b c p q
  cotrans_step _ _ _ p q = ground arith

-- Every amount of fuel gives a strict weak order.
pub lt_within-IsWeakOrder : (f : ℕ) → IsWeakOrder (lt_within f)
unfolding lt_within
lt_within-IsWeakOrder zero = record { asym = λ a b h. refl; cotrans = λ a b c p q. p }
lt_within-IsWeakOrder (suc f) =
    let o = lt_within-IsWeakOrder f in record { asym = asym_step f o; cotrans = cotrans_step f o }

-- Comparisons that agree on shallow elements agree on lists of them.
cells_lt-eq :
    (lt lt' : Value → Value → Bool) (n : ℕ)
    → ((a b : Value) → depth a ≤ n → depth b ≤ n → lt a b ≡ lt' a b)
    → (t u : Cells) → cells_depth t ≤ n
    → cells_depth u ≤ n
    → cells_lt lt t u ≡ cells_lt lt' t u
unfolding cells_lt cells_depth
cells_lt-eq lt lt' n h null null p q = refl
cells_lt-eq lt lt' n h null (cell y u) p q = refl
cells_lt-eq lt lt' n h (cell x t) null p q = refl
cells_lt-eq lt lt' n h (cell x t) (cell y u) p q =
    rw (h x y (omega arith) (omega arith), h y x (omega arith) (omega arith))
      (rw (cells_lt-eq lt lt' n h t u (omega arith) (omega arith)))

depth_pos : (a : Value) → 0 < depth a
unfolding depth
depth_pos nil = omega arith
depth_pos _ = omega arith

-- With fuel for the nesting, the amount does not matter.
lt_within_fuel :
    (f g : ℕ) (a b : Value)
    → depth a ≤ f
    → depth b ≤ f
    → depth a ≤ g
    → depth b ≤ g
    → lt_within f a b ≡ lt_within g a b
unfolding lt_within depth
lt_within_fuel zero g a b p q r s = absurd (omega (arith, depth_pos a))
lt_within_fuel (suc f) zero a b p q r s = absurd (omega (arith, depth_pos a))
lt_within_fuel (suc f) (suc g) nil nil p q r s = refl
lt_within_fuel (suc f) (suc g) (pair x t) (pair y u) p q r s =
    ap (by_length (cells_length (cell x t)) (cells_length (cell y u))) (
      cells_lt-eq (lt_within f) (lt_within g)
        (max (cells_depth (cell x t)) (cells_depth (cell y u)))
        (λ a b i j. lt_within_fuel f g a b (omega arith) (omega arith) (omega arith) (omega arith))
        (cell x t) (cell y u) (omega arith) (omega arith))
lt_within_fuel (suc f) (suc g) _ _ p q r s = refl

-- Any fuel above the nesting compares like `operator<`.
pub value_lt-within :
    (f : ℕ) (a b : Value) → depth a ≤ f → depth b ≤ f → value_lt a b ≡ lt_within f a b
unfolding value_lt
value_lt-within f a b p q = lt_within_fuel _ f a b (omega arith) (omega arith) p q

-- On two lists `operator<` compares the lengths, then the elements by `operator<` again: the fuel
-- leaves no trace.
pub value_lt-pair :
    (x y : Value) (t u : Cells)
    → value_lt (pair x t) (pair y u)
      ≡ by_length
          (cells_length (cell x t))
          (cells_length (cell y u))
          (cells_lt value_lt (cell x t) (cell y u))
unfolding value_lt depth lt_within
value_lt-pair x y t u =
    let n = max (cells_depth (cell x t)) (cells_depth (cell y u)) in
    value_lt-within (suc n) (pair x t) (pair y u) (omega arith) (omega arith)
    ∙ ap (by_length (cells_length (cell x t)) (cells_length (cell y u))) (
        path_sym (
          cells_lt-eq value_lt (lt_within n) n (value_lt-within n) (cell x t) (cell y u)
            (omega arith) (omega arith)))

cells_lt-IsConnected :
    (lt : Value → Value → Bool) (n : ℕ)
    → ((a b : Value) → depth a ≤ n → depth b ≤ n → lt a b ≡ false → lt b a ≡ false → a ≡ b)
    → (t u : Cells) → cells_depth t ≤ n
    → cells_depth u ≤ n
    → cells_lt lt t u ≡ false
    → cells_lt lt u t ≡ false
    → t ≡ u
unfolding cells_lt cells_depth
cells_lt-IsConnected lt n h null null p q i j = refl
cells_lt-IsConnected lt n h null (cell y u) p q i j = cc
cells_lt-IsConnected lt n h (cell x t) null p q i j = cc
cells_lt-IsConnected lt n h (cell x t) (cell y u) p q i j =
    ap₂ cell (h x y (omega arith) (omega arith) (ground arith) (ground arith))
      (cells_lt-IsConnected lt n h t u (omega arith) (omega arith) (ground arith) (ground arith))

tail_of : (x y : Value) (t u : Cells) → cell x t ≡ cell y u → Value.pair x t ≡ pair y u
tail_of x y t u e = cc

by_length_connected :
    (n m : ℕ) (r s : Bool)
    → by_length n m r ≡ false
    → by_length m n s ≡ false
    → (r ≡ false) × (s ≡ false)
by_length_connected n m r s p q = ground arith

connected_within :
    (f : ℕ) (a b : Value)
    → depth a ≤ f
    → depth b ≤ f
    → lt_within f a b ≡ false
    → lt_within f b a ≡ false
    → a ≡ b
unfolding lt_within depth
connected_within zero a b p q i j = absurd (omega (arith, depth_pos a))
connected_within (suc f) nil nil p q i j = refl
connected_within (suc f) (pair x t) (pair y u) p q i j =
    let both = by_length_connected (cells_length (cell x t)) (cells_length (cell y u)) _ _ i j in
    tail_of x y t u (
      cells_lt-IsConnected (lt_within f) (max (cells_depth (cell x t)) (cells_depth (cell y u)))
        (λ a b k l. connected_within f a b (omega arith) (omega arith)) (cell x t) (cell y u)
        (omega arith) (omega arith) both.0 both.1)
connected_within (suc f) (sym a) (sym b) p q i j = ap sym (symbol_lt-IsTotalOrder.connected a b i j)
connected_within (suc f) (bool a) (bool b) p q i j =
    ap bool (bool_lt-IsTotalOrder.connected a b i j)
connected_within (suc f) (int64 a) (int64 b) p q i j =
    ap int64 (int_lt-IsTotalOrder.connected a b i j)
connected_within (suc f) (blob a) (blob b) p q i j =
    ap blob (bytes_lt-IsTotalOrder.connected a b i j)
connected_within (suc f) (string a) (string b) p q i j =
    ap string (string_lt-IsTotalOrder.connected a b i j)
connected_within (suc f) _ _ p q i j = cc

value_lt_asym : (a b : Value) → value_lt a b ≡ true → value_lt b a ≡ false
value_lt_asym a b h =
    let n = max (depth a) (depth b) in
    let w = lt_within-IsWeakOrder n in
    ground (arith, value_lt-within n a b, value_lt-within n b a, w.asym a b)

value_lt_cotrans :
    (a b c : Value) → value_lt a c ≡ true → value_lt a b ≡ false → value_lt b c ≡ true
value_lt_cotrans a b c p q =
    let n = max (max (depth a) (depth b)) (depth c) in
    let w = lt_within-IsWeakOrder n in
    ground
      (arith, value_lt-within n a b, value_lt-within n a c, value_lt-within n b c, w.cotrans a b c)

value_lt-IsConnected : IsConnected value_lt
value_lt-IsConnected a b p q =
    let n = max (depth a) (depth b) in
    ground (arith, value_lt-within n a b, value_lt-within n b a, connected_within n a b)

-- `operator<` on values is a strict total order: at most one of `a < b` and `b < a` holds, neither
-- holds only of equal values, and what lies between two ordered values is on one side.
pub value_lt-IsTotalOrder : IsTotalOrder value_lt
value_lt-IsTotalOrder = record {
  weak = record { asym = value_lt_asym; cotrans = value_lt_cotrans };
  connected = value_lt-IsConnected;
}
