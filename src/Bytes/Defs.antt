-- ===== src/Bytes/Defs.antt =====
-- The types and operations on byte strings that the wire and storage code uses.
use qonduit.Common.{
  ℕ, zero, suc, ◌+◌, ◌-◌, ◌*◌, ◌/◌, ◌%◌, ◌^◌, ◌<◌, List, [], ◌∷◌, ◌&&◌, leb, ltb, length, take,
  drop, All, if◌then◌else◌,
}

abbrev pub Bytes : Type 0
Bytes = List ℕ

abbrev pub IsByte : ℕ → Type 0
IsByte b = b < 256

abbrev pub IsBytes : Bytes → Type 0
IsBytes = All IsByte

-- The outcome of fallible code: a value, an `anyhow` error by its message, or a panic of the task.
pub data Error : Type 0 where
  too_small : ℕ → ℕ → Error
  invalid_epoch : ℕ → Error
  invalid_computor_index : ℕ → Error
  unexpected_eof : Error
  publish_failed : Error
  invalid_json : Error
  -- no error of the code: the fuel of a model of a loop ran out
  out_of_fuel : Error

pub data Result {ℓ} (A : Type ℓ) : Type ℓ where
  ok : A → Result A
  err : Error → Result A
  panic : Result A

infixl 5 ◌>>=◌
abbrev pub ◌>>=◌ {ℓ κ} : {A : Type ℓ} {B : Type κ} → Result A → (A → Result B) → Result B
ok a >>= f = f a
err e >>= f = err e
panic >>= f = panic

-- `uN::from_le_bytes`, the lowest byte first.
unfoldable pub from_le : Bytes → ℕ
from_le [] = 0
from_le (b ∷ bs) = b + 256 * from_le bs

-- `to_le_bytes` of a word of n bytes.
unfoldable pub to_le : ℕ → ℕ → Bytes
to_le zero v = []
to_le (suc n) v = (v % 256) ∷ to_le n (v / 256)

-- `to_be_bytes` of a word of n bytes: the highest byte first.
unfoldable pub to_be : ℕ → ℕ → Bytes
to_be zero v = []
to_be (suc n) v = (v / 256 ^ n % 256) ∷ to_be n v

-- `uN::from_be_bytes`.
unfoldable pub from_be_acc : ℕ → Bytes → ℕ
from_be_acc acc [] = acc
from_be_acc acc (b ∷ bs) = from_be_acc (acc * 256 + b) bs

abbrev pub from_be : Bytes → ℕ
from_be = from_be_acc 0

-- `&p[a..b]`: panics unless a ≤ b ≤ p.len().
unfoldable pub slice : Bytes → ℕ → ℕ → Result Bytes
slice p a b = if leb a b && leb b (length p) then ok (take (b - a) (drop a p)) else panic

-- `uN::from_le_bytes([p[a], …, p[a + n - 1]])`, for a word of n bytes.
unfoldable pub read_le : Bytes → ℕ → ℕ → Result ℕ
read_le p a n = do s ← slice p a (a + n); ok (from_le s)

-- `p[a]`
abbrev pub read_u8 : Bytes → ℕ → Result ℕ
read_u8 p a = read_le p a 1

-- A two's complement integer; `negsuc n` is -(n + 1).
pub data ℤ : Type 0 where
  pos : ℕ → ℤ
  negsuc : ℕ → ℤ

-- The signed reading of a word of w bits.
unfoldable pub signed : ℕ → ℕ → ℤ
signed w v = if ltb v (2 ^ (w - 1)) then pos v else negsuc (2 ^ w - v - 1)
