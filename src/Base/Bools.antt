-- ===== src/Base/Bools.antt =====
-- Facts on Booleans that proofs by cases use.
use mathlib.Core.Path.{◌≡◌}
use mathlib.Core.Bool.{Bool, true, false, ◌&&◌, ◌||◌}
use native.Mathlib.Omega.{arith}

pub true-false : {b : Bool} → b ≡ true → b ≡ false → ⊥
true-false h g = cc

pub false-true : {b : Bool} → b ≡ false → b ≡ true → ⊥
false-true h g = cc

pub and_true : {a b : Bool} → (a && b) ≡ true → (a ≡ true) × (b ≡ true)
and_true {a} {b} h = ground arith

pub or_right : {a b : Bool} → a ≡ false → (a || b) ≡ true → b ≡ true
or_right {a} {b} n h = ground arith

pub or_true : (a : Bool) → (a || true) ≡ true
or_true a = ground arith
