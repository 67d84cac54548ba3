-- ===== src/Tests/Run.antt =====
-- Runs of the options, the parts and the stack size of nvptx-run.cc.
use nvptx_tools.Base.{ℕ, ◌≡◌, refl, some, List, [], ◌∷◌, Bytes, codes, has_byte, arith}
use nvptx_tools.Libc.{ℤ, strtol}
use nvptx_tools.Options.{handle_options}
use nvptx_tools.Run.Parts.{program_parts, linked, program_parts-linked}
use nvptx_tools.Run.Stack.{default_stack_size, IsStackSize, default_stack_size-IsStackSize}
use nvptx_tools.Run.Switch.{initial_launch, handle_option, LaunchesOrExits, options-LaunchesOrExits}

abbrev texts : List Bytes
texts = codes "ab" ∷ codes "c" ∷ []

program_parts-linked_example :
    program_parts (linked texts) ≡ some ((0, codes "ab") ∷ (3, codes "c") ∷ [])
unfolding has_byte
program_parts-linked_example = program_parts-linked texts (refl, (refl, tt)) (omega arith)

-- NULs in front are an empty part, several between two parts are skipped.
with_nuls :
    program_parts (0 ∷ 0 ∷ b'a' ∷ 0 ∷ 0 ∷ b'b' ∷ [])
    ≡ some ((0, []) ∷ (2, codes "a") ∷ (5, codes "b") ∷ [])
unfolding program_parts
with_nuls = refl

-- 8 GiB of free memory, 256 MiB of heap, and 40 processors of 2048 threads.
default_stack_size-IsStackSize_example :
    (size : ℕ) × (default_stack_size 8589934592 268435456 81920 ≡ some size)
    × IsStackSize 8589934592 268435456 81920 size
default_stack_size-IsStackSize_example =
    default_stack_size-IsStackSize 8589934592 268435456 81919 (omega arith) (omega arith)

rounded_down : default_stack_size 8589934592 268435456 81920 ≡ some 99936
unfolding default_stack_size
rounded_down = refl

-- Less memory than 128 MiB and the heap wraps around.
wrapped : default_stack_size 1048576 268435456 81920 ≡ some 131072
unfolding default_stack_size
wrapped = refl

abbrev read : Bytes → ℤ
unfolding strtol
read text = (strtol text).0

abbrev options : List (ℕ × Bytes)
options = (b'L', codes "32") ∷ (b'O', codes "0") ∷ (b'S', codes "1024") ∷ []

options-LaunchesOrExits_example :
    LaunchesOrExits (handle_options (handle_option read) options initial_launch)
options-LaunchesOrExits_example = options-LaunchesOrExits read options
