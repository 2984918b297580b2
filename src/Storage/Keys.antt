-- ===== src/Storage/Keys.antt =====
-- Keys of the store: byte strings in bytewise order, and the entries of a column family in the
-- order of their keys.
pub mod Order
pub mod Numbers
pub mod Ranges
pub mod Rows
pub mod Windows
pub mod Backward
pub mod Within
pub mod Appends
use qonduit.Common.{
  ℕ, List, [], ◌∷◌, ◌++◌, Bool, true, false, ◌&&◌, ◌||◌, ◌==◌, ltb, length, Option, none, some, All,
  ◌≡◌, if◌then◌else◌,
}
use qonduit.Bytes.{Bytes, IsBytes}
use qonduit.Core.Identity.{bytes_eq}

-- A key and a value.
abbrev pub Entry : Type 0
Entry = Bytes × Bytes

-- The bytewise order: a proper prefix comes first.
unfoldable pub before : Bytes → Bytes → Bool
before _ [] = false
before [] (b ∷ bs) = true
before (a ∷ xs) (b ∷ bs) = ltb a b || (a == b && before xs bs)

-- All keys lie behind `k`.
unfoldable pub all_behind : Bytes → List Entry → Bool
all_behind k [] = true
all_behind k ((j, v) ∷ es) = before k j && all_behind k es

-- Strictly ascending keys.
unfoldable pub ascending : List Entry → Bool
ascending [] = true
ascending ((k, v) ∷ es) = all_behind k es && ascending es

unfoldable pub value_at : Bytes → List Entry → Option Bytes
value_at k [] = none
value_at k ((j, v) ∷ es) = if bytes_eq j k then some v else value_at k es

-- A value is set: the entry of an equal key is replaced.
unfoldable pub set_value : Bytes → Bytes → List Entry → List Entry
set_value k v [] = (k, v) ∷ []
set_value k v ((j, w) ∷ es) =
    if bytes_eq j k
    then (k, v) ∷ es
    else if before k j
    then (k, v) ∷ (j, w) ∷ es
    else (j, w) ∷ set_value k v es

-- The entries from `k` on.
unfoldable pub from_key : Bytes → List Entry → List Entry
from_key k [] = []
from_key k ((j, v) ∷ es) = if before j k then from_key k es else (j, v) ∷ es

-- The entries up to `k`.
unfoldable pub up_to_key : Bytes → List Entry → List Entry
up_to_key k [] = []
up_to_key k ((j, v) ∷ es) = let rest = up_to_key k es in if before k j then [] else (j, v) ∷ rest

unfoldable pub has_prefix : Bytes → Bytes → Bool
has_prefix [] k = true
has_prefix (p ∷ ps) [] = false
has_prefix (p ∷ ps) (b ∷ bs) = p == b && has_prefix ps bs

-- The entries whose keys start with `p`.
unfoldable pub with_prefix : Bytes → List Entry → List Entry
with_prefix p [] = []
with_prefix p ((j, v) ∷ es) =
    let rest = with_prefix p es in if has_prefix p j then (j, v) ∷ rest else rest

-- A scan that stops at the first key that is not of length `n` or does not start with `p`.
unfoldable pub scan_prefix : ℕ → Bytes → List Entry → List Entry
scan_prefix n p [] = []
scan_prefix n p ((k, v) ∷ es) =
    let rest = scan_prefix n p es in if length k == n && has_prefix p k then (k, v) ∷ rest else []

-- Every key has the length `n` and consists of bytes.
unfoldable pub KeysOf : ℕ → List Entry → Type 0
KeysOf n = All (λ e. (length e.0 ≡ n) × IsBytes e.0)
