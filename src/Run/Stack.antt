-- ===== src/Run/Stack.antt =====
-- nvptx-run.cc, `main`: the default stack size of a lane.
use nvptx_tools.Base.{
  ℕ, zero, suc, ◌+◌, ◌-◌, ◌*◌, ◌/◌, ◌%◌, ◌<◌, ◌≤◌, ◌≡◌, refl, Option, none, some, if◌then◌else◌,
  ltb, arith, Bool-cases, inl, inr,
}
use native.Mathlib.Nat.{div-mul-le_self, mul-le-mul_right}

-- `size_t`, of 64 bits.
abbrev pub size_modulus : ℕ
size_modulus = 18446744073709551616

-- 128 MiB.
abbrev pub extra : ℕ
extra = 134217728

-- `mem -= heap_size + 128 * 1024 * 1024`, which wraps.
abbrev pub left_over : ℕ → ℕ → ℕ
left_over mem_free heap_size =
    (mem_free + (size_modulus - (heap_size + extra) % size_modulus)) % size_modulus

-- At most 128 KiB, rounded down to 8 bytes: `-8u` has 32 bits.
abbrev pub rounded : ℕ → ℕ
rounded mem = let most = if ltb 131072 mem then 131072 else mem in most % 4294967296 - most % 8

-- `threads` is `sm_count * thread_max`; a division by 0 has no result.
unfoldable pub default_stack_size : ℕ → ℕ → ℕ → Option ℕ
default_stack_size mem_free heap_size zero = none
default_stack_size mem_free heap_size (suc n) =
    some (rounded (left_over mem_free heap_size / suc n))

left_over_lem :
    (mem_free heap_size : ℕ)
    → mem_free < size_modulus
    → heap_size + extra ≤ mem_free
    → left_over mem_free heap_size ≡ mem_free - (heap_size + extra)
left_over_lem mem_free heap_size h g = omega arith

rounded_le : (mem : ℕ) → (rounded mem ≤ mem) × (rounded mem ≤ 131072) × (rounded mem % 8 ≡ 0)
rounded_le mem = elim (Bool-cases (ltb 131072 mem)) [
  | inl e ↦ rw e (ground (arith, e), omega arith, refl)
  | inr e ↦
      let small : mem ≤ 131072 = ground (arith, e) in
      rw e (omega arith, omega (arith, small), omega (arith, small))
]

le_times : (a b k l : ℕ) → a ≤ b → b * k ≤ l → a * k ≤ l
le_times a b k l h g = let m : a * k ≤ b * k = mul-le-mul_right k h in omega (arith, m, g)

-- What is taken from the memory that is left fits beside the rest.
beside : (p left rest mem : ℕ) → p ≤ left → left ≡ mem - rest → rest ≤ mem → p + rest ≤ mem
beside p left rest mem h e g = omega (arith, h, e, g)

-- What is relied on of the default: it is at most 128 KiB and a multiple of 8, and the stacks of all threads fit
-- into the free memory beside the heap and 128 MiB.
pub record IsStackSize (mem_free heap_size threads size : ℕ) : Type 0 where
  pub small : size ≤ 131072
  pub aligned : size % 8 ≡ 0
  pub fits : size * threads + (heap_size + extra) ≤ mem_free

-- If the free memory is a `size_t` and holds the heap and 128 MiB, the default stack size for at least one thread is
-- at most 128 KiB and a multiple of 8, and the stacks of all threads fit beside the heap and the 128 MiB.
pub default_stack_size-IsStackSize :
    (mem_free heap_size n : ℕ)
    → mem_free < size_modulus
    → heap_size + extra ≤ mem_free
    → (size : ℕ) × (default_stack_size mem_free heap_size (suc n) ≡ some size)
      × IsStackSize mem_free heap_size (suc n) size
unfolding default_stack_size
default_stack_size-IsStackSize mem_free heap_size n h g =
    let left = left_over mem_free heap_size in
    let size = rounded (left / suc n) in
    let (le, small, aligned) = rounded_le (left / suc n) in
    (
      size,
      refl,
      record {
        small = small;
        aligned = aligned;
        fits =
            beside (size * suc n) left (heap_size + extra) mem_free
              (le_times size (left / suc n) (suc n) left le (div-mul-le_self left (suc n)))
              (left_over_lem mem_free heap_size h g) g;
      },
    )
