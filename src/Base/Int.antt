-- ===== src/Base/Int.antt =====
-- Go's signed integers, where the program only compares, subtracts or prints them.
use Prim.Native.Nat.{ℕ, ◌+◌, ◌-◌, ◌/◌, ◌%◌, ◌^◌}
use mathlib.Core.Path.{◌≡◌}
use mathlib.Core.Logic.{◌↔◌}
use mathlib.Core.Bool.{Bool, true, false}
use native.Mathlib.Omega.{arith}
use virtual_kubelet_cmd.Base.Eq.{Equality, ◌==◌, nat_equality}
use virtual_kubelet_cmd.Base.Tests.{leb, ltb, if◌then◌else◌}

-- `negsuc n` is -(n + 1).
pub data ℤ : Type 0 where
  pos : ℕ → ℤ
  negsuc : ℕ → ℤ

abbrev pub same_int : ℤ → ℤ → Bool
same_int (pos a) (pos b) = a == b
same_int (pos a) (negsuc b) = false
same_int (negsuc a) (pos b) = false
same_int (negsuc a) (negsuc b) = a == b

pub same_int_iff : (a b : ℤ) → (same_int a b ≡ true) ↔ (a ≡ b)
same_int_iff (pos a) (pos b) = ground arith
same_int_iff (pos a) (negsuc b) = ground arith
same_int_iff (negsuc a) (pos b) = ground arith
same_int_iff (negsuc a) (negsuc b) = ground arith

instance abbrev pub int_equality : Equality ℤ
int_equality = record { same = same_int; same_iff = same_int_iff }

abbrev pub leb_int : ℤ → ℤ → Bool
leb_int (pos a) (pos b) = leb a b
leb_int (pos a) (negsuc b) = false
leb_int (negsuc a) (pos b) = true
leb_int (negsuc a) (negsuc b) = leb b a

-- a - b, as an integer.
abbrev pub sub_ℕ : ℕ → ℕ → ℤ
sub_ℕ a b = if leb b a then pos (a - b) else negsuc (b - a - 1)

-- `n - k` for a signed `n`.
abbrev pub minus : ℤ → ℕ → ℤ
minus (pos a) k = sub_ℕ a k
minus (negsuc a) k = negsuc (a + k)

-- The signed value of a word of 64 bits.
abbrev pub signed64 : ℕ → ℤ
signed64 m = if ltb m (2 ^ 63) then pos m else negsuc (2 ^ 64 - 1 - m)

-- int64(n), for an integer of any size.
unfoldable pub to_int64 : ℤ → ℤ
to_int64 (pos n) = signed64 (n % 2 ^ 64)
to_int64 (negsuc n) = signed64 (2 ^ 64 - 1 - n % 2 ^ 64)

-- n / d, which rounds towards 0.
abbrev pub quotient : ℤ → ℕ → ℤ
quotient (pos n) d = pos (n / d)
quotient (negsuc n) d = minus (pos 0) ((n + 1) / d)
