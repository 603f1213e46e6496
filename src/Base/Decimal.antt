-- ===== src/Base/Decimal.antt =====
-- The verb %d of package fmt, and text cut at a byte.
use Prim.Native.Nat.{ℕ, zero, suc, ◌+◌, ◌/◌, ◌%◌, ◌<◌}
use mathlib.Core.Logic.{inl, inr}
use native.Mathlib.Omega.{arith}
use mathlib.Core.List.{[], ◌∷◌}
use animus_coder.Base.Tests.{ltb, if◌then◌else◌, Bool-cases}
use animus_coder.Base.Lists.{All}
use animus_coder.Base.Texts.{Text}
use animus_coder.Base.Integers.{ℤ, pos, negsuc}

-- The digits of `n` before those of `acc`; one round for each digit, so `suc n` rounds are enough.
digits : ℕ → ℕ → Text → Text
digits zero n acc = acc
digits (suc fuel) n acc =
    let more = digits fuel (n / 10) ((b'0' + n % 10) ∷ acc) in
    if ltb n 10 then (b'0' + n) ∷ acc else more

unfoldable pub show_nat : ℕ → Text
unfolding digits
show_nat n = digits (suc n) n []

unfoldable pub show_int : ℤ → Text
unfolding show_nat
show_int (pos n) = show_nat n
show_int (negsuc n) = b'-' ∷ show_nat (suc n)

module _ (P : ℕ → Type 0) (on_digits : (d : ℕ) → d < 10 → P (b'0' + d)) where
  digits-All : (fuel n : ℕ) (acc : Text) → All P acc → All P (digits fuel n acc)
  unfolding digits
  digits-All zero n acc h = h
  digits-All (suc fuel) n acc h = elim (Bool-cases (ltb n 10)) [
    | inl e ↦ rw e (on_digits n (ground arith), h)
    | inr e ↦
        rw e
          (digits-All fuel (n / 10) ((b'0' + n % 10) ∷ acc) (on_digits (n % 10) (omega arith), h))
  ]

  -- What holds of every digit holds of every byte of a number in decimal.
  pub show_nat-All : (n : ℕ) → All P (show_nat n)
  unfolding show_nat
  show_nat-All n = digits-All (suc n) n [] tt
