-- ===== src/Executor/Flags.antt =====
-- What `push` does to the status flags of a descriptor.
use Prim.Native.Nat.{◌/◌}
use native.Mathlib.Nat.{add-div_right, add-mod_right, one-le-pow}
use async_berkeley.Base.{ℕ, ◌+◌, ◌%◌, ◌^◌, ◌<◌, ◌≡◌, refl, pos, ◌==◌, arith, Bool-cases, inl, inr}
use async_berkeley.Executor.{bit, or_bit}

-- The bit `k` is set in `m`, and every other bit is as it is in `n`.
abbrev pub SetsBit : ℕ → ℕ → ℕ → Type 0
SetsBit k n m = (bit k m ≡ 1) × (m % 2 ^ k ≡ n % 2 ^ k) × (m / 2 ^ k / 2 ≡ n / 2 ^ k / 2)

-- Of flags that are not negative.
pub or_bit-SetsBit : (k n : ℕ) → (m : ℕ) × (or_bit k (pos n) ≡ pos m) × SetsBit k n m
unfolding or_bit
or_bit-SetsBit k n = elim (Bool-cases (bit k n == 1)) [
  | inl set ↦ (n, rw set refl, (ground arith, refl, refl))
  | inr unset ↦
      let some_power : 0 < 2 ^ k = one-le-pow k 2 (omega arith) in
      let next : (n + 2 ^ k) / 2 ^ k ≡ n / 2 ^ k + 1 = add-div_right n some_power in
      let low : (n + 2 ^ k) % 2 ^ k ≡ n % 2 ^ k = add-mod_right n (2 ^ k) in
      let even : n / 2 ^ k % 2 ≡ 0 = ground arith in
      (n + 2 ^ k, rw unset refl, (rw next (omega arith), low, rw next (omega arith)))
]
