-- ===== src/Prelude/Word.antt =====
-- Rust's unsigned integers. The release profile has `overflow-checks = true` (Cargo.toml), so a
-- plain `+` or `-` that leaves the range panics.
use Prim.Native.Nat.{ℕ, ◌+◌, ◌-◌, ◌*◌, ◌^◌}
use mathlib.Core.Option.{Option, none, some}
use arxium.Prelude.Tests.{ltb, leb, if◌then◌else◌}
use arxium.Prelude.Results.{Result, ok, panic}

abbrev pub u8_bound : ℕ
u8_bound = 2 ^ 8

abbrev pub u32_bound : ℕ
u32_bound = 2 ^ 32

abbrev pub u64_bound : ℕ
u64_bound = 2 ^ 64

abbrev pub u128_bound : ℕ
u128_bound = 2 ^ 128

-- `checked_add` at the width whose bound is given
abbrev pub checked_add : ℕ → ℕ → ℕ → Option ℕ
checked_add bound a b = if ltb (a + b) bound then some (a + b) else none

abbrev pub checked_sub : ℕ → ℕ → Option ℕ
checked_sub a b = if leb b a then some (a - b) else none

abbrev pub saturating_add : ℕ → ℕ → ℕ → ℕ
saturating_add bound a b = if ltb (a + b) bound then a + b else bound - 1

-- On ℕ the difference already stops at 0.
abbrev pub saturating_sub : ℕ → ℕ → ℕ
saturating_sub a b = a - b

module _ {ℓ} {E : Type ℓ} where
  -- `a + b`, `a - b` and `a * b` under overflow checks
  abbrev pub add : ℕ → ℕ → ℕ → Result E ℕ
  add bound a b = if ltb (a + b) bound then ok (a + b) else panic

  abbrev pub sub : ℕ → ℕ → Result E ℕ
  sub a b = if leb b a then ok (a - b) else panic

  abbrev pub mul : ℕ → ℕ → ℕ → Result E ℕ
  mul bound a b = if ltb (a * b) bound then ok (a * b) else panic
