-- ===== src/Base/Ints.antt =====
-- Integers as byte strings: `int.to_bytes` and `int.from_bytes`, in both orders.
use Prim.Native.Nat.{ℕ, zero, suc, ◌+◌, ◌*◌, ◌/◌, ◌%◌, ◌^◌, ◌<◌}
use mathlib.Core.Path.{◌≡◌, refl, ap}
use mathlib.Core.List.{[], ◌∷◌, ◌++◌}
use native.Mathlib.Omega.{arith}
use native.Mathlib.Nat.{pow-suc}
use arduino_yun_bridge.Base.Lists.{length, length-append}
use arduino_yun_bridge.Base.Chars.{Bytes}

-- The integers: `negsuc n` is -(n + 1).
pub data ℤ : Type 0 where
  pos negsuc : ℕ → ℤ

abbrev pub IsByte : ℕ → Type 0
IsByte b = b < 256

-- `n.to_bytes(k, "little")` for `n` below `256 ^ k`
unfoldable pub to_bytes_le : ℕ → ℕ → Bytes
to_bytes_le zero n = []
to_bytes_le (suc k) n = n % 256 ∷ to_bytes_le k (n / 256)

unfoldable pub from_bytes_le : Bytes → ℕ
from_bytes_le [] = 0
from_bytes_le (b ∷ bs) = b + 256 * from_bytes_le bs

-- `n.to_bytes(k, "big")` for `n` below `256 ^ k`
unfoldable pub to_bytes_be : ℕ → ℕ → Bytes
to_bytes_be zero n = []
to_bytes_be (suc k) n = to_bytes_be k (n / 256) ++ (n % 256 ∷ [])

from_bytes_be_acc : ℕ → Bytes → ℕ
from_bytes_be_acc acc [] = acc
from_bytes_be_acc acc (b ∷ bs) = from_bytes_be_acc (acc * 256 + b) bs

-- `int.from_bytes(b, "big")`
unfoldable pub from_bytes_be : Bytes → ℕ
unfolding from_bytes_be_acc
from_bytes_be bs = from_bytes_be_acc 0 bs

pub length-to_bytes_le : (k n : ℕ) → length (to_bytes_le k n) ≡ k
unfolding to_bytes_le
length-to_bytes_le zero n = refl
length-to_bytes_le (suc k) n = ap suc (length-to_bytes_le k (n / 256))

pub length-to_bytes_be : (k n : ℕ) → length (to_bytes_be k n) ≡ k
unfolding to_bytes_be
length-to_bytes_be zero n = refl
length-to_bytes_be (suc k) n =
    omega (
      arith,
      length-append (to_bytes_be k (n / 256)) (n % 256 ∷ []),
      length-to_bytes_be k (n / 256),
    )

pow256_suc : (k n : ℕ) → n < 256 ^ suc k → n / 256 < 256 ^ k
pow256_suc k n h = omega (arith, pow-suc 256 k)

pub from-to_bytes_le : (k n : ℕ) → n < 256 ^ k → from_bytes_le (to_bytes_le k n) ≡ n
unfolding to_bytes_le from_bytes_le
from-to_bytes_le zero n h = omega arith
from-to_bytes_le (suc k) n h = omega (arith, from-to_bytes_le k (n / 256) (pow256_suc k n h))

from_bytes_be_acc-append :
    (acc : ℕ) (xs : Bytes) (b : ℕ)
    → from_bytes_be_acc acc (xs ++ (b ∷ [])) ≡ from_bytes_be_acc acc xs * 256 + b
unfolding from_bytes_be_acc
from_bytes_be_acc-append acc [] b = refl
from_bytes_be_acc-append acc (x ∷ xs) b = from_bytes_be_acc-append (acc * 256 + x) xs b

pub from-to_bytes_be : (k n : ℕ) → n < 256 ^ k → from_bytes_be (to_bytes_be k n) ≡ n
unfolding to_bytes_be from_bytes_be
from-to_bytes_be zero n h = omega arith
from-to_bytes_be (suc k) n h = omega (
  arith,
  from_bytes_be_acc-append 0 (to_bytes_be k (n / 256)) (n % 256),
  from-to_bytes_be k (n / 256) (pow256_suc k n h),
)
