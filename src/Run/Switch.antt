-- ===== src/Run/Switch.antt =====
-- nvptx-run.cc, `main`: the options.
use nvptx_tools.Base.{
  ℕ, ◌-◌, ◌≤◌, ◌≡◌, refl, Bool, true, false, not, ◌||◌, ◌⊎◌, inl, inr, List, [], ◌∷◌, ◌==◌,
  if◌then◌else◌, ltb, Bytes, arith,
}
use nvptx_tools.Libc.{ℤ, pos, negsuc, less}
use nvptx_tools.Options.{Parsed, proceed, exits, handle_options}

-- What the options set; `stack_size` is 0 for the default.
pub record Launch : Type 0 where
  pub stack_size : ℤ
  pub heap_size : ℤ
  pub num_lanes : ℤ
  pub optimize : ℕ
  pub lineinfo : Bool
  pub debuginfo : Bool

-- 256 MiB of heap.
abbrev pub initial_launch : Launch
initial_launch = record {
  stack_size = pos 0;
  heap_size = pos 268435456;
  num_lanes = pos 1;
  optimize = 4;
  lineinfo = false;
  debuginfo = false;
}

abbrev pub is_positive : ℤ → Bool
is_positive n = less (pos 0) n

-- `fatal_error` exits with this status.
abbrev pub fatal : ℕ
fatal = 127

-- `(size_t) optarg[0] - '0'` is greater than 4 if it wraps.
abbrev pub set_optimize : Bytes → Launch → Parsed Launch
set_optimize [] s = exits fatal
set_optimize (c ∷ []) s =
    if ltb c b'0' || ltb 4 (c - b'0')
    then exits fatal
    else proceed (record s { optimize = c - b'0' })
set_optimize (c ∷ d ∷ arg) s = exits fatal

-- The `switch` on what `getopt_long` returned, with `optarg`; `strtol` reads in base 0.
module _ (strtol : Bytes → ℤ) where
  unfoldable pub handle_option : ℕ → Bytes → Launch → Parsed Launch
  handle_option o arg s =
      if o == b'S'
      then (if is_positive (strtol arg)
          then proceed (record s { stack_size = strtol arg })
          else exits fatal)
      else if o == b'H'
      then (if is_positive (strtol arg)
          then proceed (record s { heap_size = strtol arg })
          else exits fatal)
      else if o == b'L'
      then (if less (strtol arg) (pos 1) || less (pos 32) (strtol arg)
          then exits fatal
          else proceed (record s { num_lanes = strtol arg }))
      else if o == b'O'
      then set_optimize arg s
      else if o == b'g'
      then proceed (record s { lineinfo = true })
      else if o == b'G'
      then proceed (record s { debuginfo = true })
      else if o == b'h'
      then exits 0
      else if o == b'V'
      then exits 0
      else exits 1

-- What the rest of `main` relies on.
pub record IsLaunch (s : Launch) : Type 0 where
  pub stack : not (less s.stack_size (pos 0)) ≡ true
  pub heap : is_positive s.heap_size ≡ true
  pub lanes : (n : ℕ) × (s.num_lanes ≡ pos n) × (1 ≤ n) × (n ≤ 32)
  pub level : s.optimize ≤ 4

abbrev pub LaunchesOrExits : Parsed Launch → Type 0
LaunchesOrExits (proceed s) = IsLaunch s
LaunchesOrExits (exits status) = (status ≡ 0) ⊎ (status ≡ 1) ⊎ (status ≡ fatal)

when :
    (b : Bool) (x y : Parsed Launch)
    → (b ≡ true → LaunchesOrExits x)
    → (b ≡ false → LaunchesOrExits y)
    → LaunchesOrExits (if b then x else y)
when true x y h g = h refl
when false x y h g = g refl

lanes_of :
    (n : ℤ)
    → (less n (pos 1) || less (pos 32) n) ≡ false
    → (k : ℕ) × (n ≡ pos k) × (1 ≤ k) × (k ≤ 32)
lanes_of (pos k) h = (k, refl, ground (arith, h), ground (arith, h))
lanes_of (negsuc k) h = absurd (cc h)

positive_natural : (n : ℤ) → is_positive n ≡ true → not (less n (pos 0)) ≡ true
positive_natural (pos k) h = ground (arith, h)
positive_natural (negsuc k) h = absurd (cc h)

set_optimize-LaunchesOrExits :
    (arg : Bytes) (s : Launch) → IsLaunch s → LaunchesOrExits (set_optimize arg s)
set_optimize-LaunchesOrExits [] s i = inr (inr refl)
set_optimize-LaunchesOrExits (c ∷ []) s i =
    when (ltb c b'0' || ltb 4 (c - b'0')) _ _ (λ h. inr (inr refl))
      (λ h. record { stack = i.stack; heap = i.heap; lanes = i.lanes; level = ground (arith, h) })
set_optimize-LaunchesOrExits (c ∷ d ∷ arg) s i = inr (inr refl)

module _ (strtol : Bytes → ℤ) where
  handle_option-LaunchesOrExits :
      (o : ℕ) (arg : Bytes) (s : Launch)
      → IsLaunch s
      → LaunchesOrExits (handle_option strtol o arg s)
  unfolding handle_option
  handle_option-LaunchesOrExits o arg s i =
      when (o == b'S') _ _
        (λ h.
          when (is_positive (strtol arg)) _ _
            (λ p. record {
              stack = positive_natural (strtol arg) p;
              heap = i.heap;
              lanes = i.lanes;
              level = i.level;
            })
            (λ p. inr (inr refl)))
        (λ h.
          when (o == b'H') _ _
            (λ h.
              when (is_positive (strtol arg)) _ _
                (λ p. record { stack = i.stack; heap = p; lanes = i.lanes; level = i.level })
                (λ p. inr (inr refl)))
            (λ h.
              when (o == b'L') _ _
                (λ h.
                  when (less (strtol arg) (pos 1) || less (pos 32) (strtol arg)) _ _
                    (λ p. inr (inr refl))
                    (λ p. record {
                      stack = i.stack;
                      heap = i.heap;
                      lanes = lanes_of (strtol arg) p;
                      level = i.level;
                    }))
                (λ h.
                  when (o == b'O') _ _ (λ h. set_optimize-LaunchesOrExits arg s i)
                    (λ h.
                      when (o == b'g') _ _
                        (λ h. record {
                          stack = i.stack;
                          heap = i.heap;
                          lanes = i.lanes;
                          level = i.level;
                        })
                        (λ h.
                          when (o == b'G') _ _
                            (λ h. record {
                              stack = i.stack;
                              heap = i.heap;
                              lanes = i.lanes;
                              level = i.level;
                            })
                            (λ h.
                              when (o == b'h') _ _ (λ h. inl refl)
                                (λ h.
                                  when (o == b'V') _ _ (λ h. inl refl) (λ h. inr (inl refl)))))))))

  proceeding :
      (p : Parsed Launch) (again : Launch → Parsed Launch)
      → LaunchesOrExits p
      → ((s : Launch) → IsLaunch s → LaunchesOrExits (again s))
      → LaunchesOrExits (elim p [ proceed s ↦ again s | exits status ↦ exits status ])
  proceeding (proceed s) again h k = k s h
  proceeding (exits status) again h k = h

  handle_options-LaunchesOrExits :
      (options : List (ℕ × Bytes)) (s : Launch)
      → IsLaunch s
      → LaunchesOrExits (handle_options (handle_option strtol) options s)
  unfolding handle_options
  handle_options-LaunchesOrExits [] s i = i
  handle_options-LaunchesOrExits ((o, arg) ∷ more) s i =
      proceeding (handle_option strtol o arg s) (handle_options (handle_option strtol) more)
        (handle_option-LaunchesOrExits o arg s i) (handle_options-LaunchesOrExits more)

  -- For each reading of numbers by `strtol`: the options leave a stack size that is not negative, a heap size above
  -- 0, 1 to 32 lanes and an optimization level of at most 4, or the program exits with
  -- status 0, 1, or 127, that of a fatal error.
  pub options-LaunchesOrExits :
      (options : List (ℕ × Bytes))
      → LaunchesOrExits (handle_options (handle_option strtol) options initial_launch)
  options-LaunchesOrExits options = handle_options-LaunchesOrExits options initial_launch (record {
    stack = refl;
    heap = refl;
    lanes = (1, refl, omega arith, omega arith);
    level = omega arith;
  })
