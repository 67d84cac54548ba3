-- ===== src/As/Order.antt =====
-- nvptx-as.cc: `symbol_order_deps`, which puts the variables in the order of their initializers.
pub mod Sorted
pub mod Complete
use nvptx_tools.Base.{
  ℕ, zero, suc, Bool, true, false, ◌||◌, List, [], ◌∷◌, ◌++◌, ◌==◌, if◌then◌else◌,
}
use nvptx_tools.Result.{Result, ok, err, ◌>>=◌, ◌>>◌, assert, circular_reference, out_of_fuel}

-- The flags of the symbols, and `symbols_out`. A symbol is its place in `symbols`.
pub record Order : Type 0 where
  pub pending : ℕ → Bool
  pub emitted : ℕ → Bool
  pub symbols_out : List ℕ

-- A flag written.
abbrev pub set : ℕ → Bool → (ℕ → Bool) → ℕ → Bool
set e b flags k = if e == k then b else flags k

unfoldable pub order_all : (ℕ → Order → Result Order) → List ℕ → Order → Result Order
order_all again [] st = ok st
order_all again (e ∷ es) st = again e st >>= order_all again es

abbrev pub emit : ℕ → Order → Order
emit e st = record {
  pending = set e false st.pending;
  emitted = set e true st.emitted;
  symbols_out = st.symbols_out ++ e ∷ [];
}

abbrev pub start_pending : ℕ → Order → Order
start_pending e st = record st { pending = set e true st.pending }

abbrev pub unordered : Order
unordered = record { pending = λ k. false; emitted = λ k. false; symbols_out = [] }

abbrev pub places : ℕ → ℕ → List ℕ
places first zero = []
places first (suc n) = first ∷ places (suc first) n

-- `deps` are the dependences of each symbol.
module _ (deps : ℕ → List ℕ) where
  -- On fuel, which the depth of the recursion uses.
  unfoldable pub symbol_order_deps : ℕ → ℕ → Order → Result Order
  unfolding order_all
  symbol_order_deps zero e st = err out_of_fuel
  symbol_order_deps (suc fuel) e st =
      let visited = order_all (symbol_order_deps fuel) (deps e) (start_pending e st) >>= λ st'.
      ok (emit e st') in
      if st.emitted e then ok st else if st.pending e then err circular_reference else visited

  -- In `process`: the loop over the `n` symbols, which may nest as deep as there are symbols.
  unfoldable pub order_symbols : ℕ → Result Order
  unfolding symbol_order_deps order_all
  order_symbols n = order_all (symbol_order_deps (suc n)) (places 0 n) unordered
