-- ===== src/Result.antt =====
-- The results of the tools: a value, or the error that ends the tool.
pub mod Ensures
use nvptx_tools.Base.{ℕ, ◌≡◌, refl, ◌⊎◌, inl, inr, Bool, true, false, Option, none, some, Bytes}

-- What ends a tool early: the errors that it reports, `null_pointer`, a read through NULL,
-- `assertion`, a failed `assert`, and `out_of_fuel`, which no code reports.
pub data Error : Type 0 where
  truncated_marker : Error
  multiple_definitions : Bytes → Error
  unresolved_symbol : Bytes → Error
  bad_special_function : Bytes → Error
  additional_special_functions : Error
  write_error : Error
  open_error : Bytes → Error
  library_error : Bytes → Error
  output_error : Error
  bad_archive : Bytes → Error
  weak_local : Bytes → Error
  null_pointer : Error
  assertion : Error
  non_ascii : ℕ → Error
  past_the_end : Error
  circular_reference expected_identifier : Error
  missing_version malformed_version missing_target malformed_target target_list : Error
  too_many_inputs no_input not_verifiable unsupported_target no_archs bad_output : Error
  program_failed : Error
  out_of_fuel : Error

pub data Result {ℓ} (A : Type ℓ) : Type ℓ where
  err : Error → Result A
  ok : A → Result A

infixl 5 ◌>>=◌ ◌>>◌
-- A call whose failure the caller passes on.
abbrev pub ◌>>=◌ {ℓ κ} : {A : Type ℓ} → {B : Type κ} → Result A → (A → Result B) → Result B
err failure >>= next = err failure
ok value >>= next = next value

-- `assert (b)`
abbrev pub assert : Bool → Result (Unit {0})
assert true = ok tt
assert false = err assertion

abbrev pub ◌>>◌ {κ} : {B : Type κ} → Result (Unit {0}) → Result B → Result B
checked >> next = checked >>= λ nothing. next

abbrev pub is_some {ℓ} : {A : Type ℓ} → Option A → Bool
is_some none = false
is_some (some _) = true

pub Result-cases {ℓ} :
    {A : Type ℓ} (m : Result A) → ((a : A) × (m ≡ ok a)) ⊎ ((e : Error) × (m ≡ err e))
Result-cases (ok a) = inl (a, refl)
Result-cases (err e) = inr (e, refl)
