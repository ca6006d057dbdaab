-- ===== src/Prelude/Int.antt =====
-- Go's int64 (and `time.Duration`) as signed numbers over the native ℕ.
use yomins_agent.Prelude.{
  ℕ, ◌+◌, ◌-◌, ◌%◌, leb, ◌^◌, ltb, ◌==◌, if◌then◌else◌, Bool, true, false, ◌≡◌, ◌↔◌, arith,
}

-- `negsuc n` is -(n + 1).
pub data ℤ : Type 0 where
  pos : ℕ → ℤ
  negsuc : ℕ → ℤ

-- The int64 that a non-negative result of 64-bit arithmetic wraps to.
unfoldable pub wrap_int64 : ℕ → ℤ
wrap_int64 x = let r = x % 2 ^ 64 in if ltb r (2 ^ 63) then pos r else negsuc (2 ^ 64 - r - 1)

unfoldable pub int_beq : ℤ → ℤ → Bool
int_beq (pos a) (pos b) = a == b
int_beq (negsuc a) (negsuc b) = a == b
int_beq _ _ = false

pub int_beq_iff : (a b : ℤ) → (int_beq a b ≡ true) ↔ (a ≡ b)
unfolding int_beq
int_beq_iff (pos a) (pos b) = ground arith
int_beq_iff (pos a) (negsuc b) = ground arith
int_beq_iff (negsuc a) (pos b) = ground arith
int_beq_iff (negsuc a) (negsuc b) = ground arith

-- The conversion of a uint64 to int32.
unfoldable pub wrap_int32 : ℕ → ℤ
wrap_int32 x = let r = x % 2 ^ 32 in if ltb r (2 ^ 31) then pos r else negsuc (2 ^ 32 - r - 1)

-- A uint16 read as int16.
unfoldable pub wrap_int16 : ℕ → ℤ
wrap_int16 x = let r = x % 2 ^ 16 in if ltb r (2 ^ 15) then pos r else negsuc (2 ^ 16 - r - 1)

-- A sum with a number that is not negative; the sums of the source stay far below 2^63.
unfoldable pub add_nat : ℤ → ℕ → ℤ
add_nat (pos a) n = pos (a + n)
add_nat (negsuc a) n = if leb n a then negsuc (a - n) else pos (n - a - 1)
