-- ===== src/Base/Bits.antt =====
-- The bitwise `and` of two words of a given width, for memory whose bits can only be cleared.
use Prim.Native.Nat.{ℕ, zero, suc, ◌+◌, ◌*◌, ◌/◌, ◌%◌, ◌^◌, ◌≤◌, ◌<◌, min}
use mathlib.Core.Path.{◌≡◌, refl}
use native.Mathlib.Nat.{pow-suc}
use native.Mathlib.Omega.{arith}

-- The lowest bit of both words, and the rest of them by recursion on the width.
unfoldable pub and_word : ℕ → ℕ → ℕ → ℕ
and_word zero a b = 0
and_word (suc w) a b = and_word w (a / 2) (b / 2) * 2 + min (a % 2) (b % 2)

pub and_word-zero : (w a : ℕ) → and_word w a 0 ≡ 0
unfolding and_word
and_word-zero zero a = refl
and_word-zero (suc w) a = omega (arith, and_word-zero w (a / 2))

pub pow_pos : (w : ℕ) → 0 < 2 ^ w
pow_pos zero = omega arith
pow_pos (suc w) = omega (arith, pow-suc 2 w, pow_pos w)

-- An erased word, all ones, takes any value that is written.
pub and_word_ones : (w a v : ℕ) → a + 1 ≡ 2 ^ w → v < 2 ^ w → and_word w a v ≡ v
unfolding and_word
and_word_ones zero a v e h = omega arith
and_word_ones (suc w) a v e h =
    let p : 2 ^ suc w ≡ 2 ^ w * 2 = pow-suc 2 w in
    let ih : and_word w (a / 2) (v / 2) ≡ v / 2 =
      and_word_ones w (a / 2) (v / 2) (omega (arith, pow_pos w)) (omega arith) in
    omega (arith, pow_pos w)

-- Nothing is set that was clear, on either side.
pub and_word-le : (w a b : ℕ) → (and_word w a b ≤ a) × (and_word w a b ≤ b)
unfolding and_word
and_word-le zero a b = omega arith
and_word-le (suc w) a b = omega (arith, and_word-le w (a / 2) (b / 2))

and_word_comm : (w a b : ℕ) → and_word w a b ≡ and_word w b a
unfolding and_word
and_word_comm zero a b = refl
and_word_comm (suc w) a b = omega (arith, and_word_comm w (a / 2) (b / 2))

-- A mask of ones but for bit 1 clears bit 1 and keeps the others.
pub and_word_clear :
    (w a b : ℕ)
    → a / 4 < 2 ^ w
    → b % 4 ≡ 1
    → b / 4 + 1 ≡ 2 ^ w
    → and_word (suc (suc w)) a b ≡ a / 4 * 4 + a % 2
unfolding and_word
and_word_clear w a b lt low high =
    let ones = and_word_ones w (b / 2 / 2) (a / 2 / 2) (omega arith) (omega arith) in
    omega (arith, and_word_comm w (a / 2 / 2) (b / 2 / 2), ones)
