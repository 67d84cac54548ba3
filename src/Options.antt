-- ===== src/Options.antt =====
-- The loop over the options that the tools share: `getopt_long` and the `switch` on its result.
use nvptx_tools.Base.{ℕ, List, [], ◌∷◌, Bytes}

-- The loop over the options goes on, or the program exits with a status.
pub data Parsed (S : Type 0) : Type 0 where
  proceed : S → Parsed S
  exits : ℕ → Parsed S

-- The `while` loop, over what the calls of `getopt_long` return before -1, each with `optarg`;
-- `handle` is the tool's `switch`.
unfoldable pub handle_options :
    {S : Type 0} → (ℕ → Bytes → S → Parsed S) → List (ℕ × Bytes) → S → Parsed S
handle_options handle [] s = proceed s
handle_options handle ((o, arg) ∷ more) s = elim (handle o arg s) [
  | proceed s' ↦ handle_options handle more s'
  | exits status ↦ exits status
]
