-- ===== src/Ingestion/Peers/Scores.antt =====
-- The score of a peer of crates/ingestion/src/peer_manager.rs, an f64. A float that occurs is a
-- natural number of units of 2 ^ -128: a score is at least 2 ^ -33 or zero, and a float of that size
-- with 53 significant bits is a multiple of the unit. Every operation rounds as IEEE 754 does, to
-- the nearest float with 53 bits, a tie to the even one.
use qonduit.Common.{
  ℕ, zero, suc, ◌+◌, ◌*◌, ◌/◌, ◌%◌, ◌^◌, min, ◌&&◌, ◌||◌, ◌==◌, ltb, if◌then◌else◌,
}
use qonduit.Ingestion.Peers.{Peer}

abbrev pub one : ℕ
one = 2 ^ 128

-- The natural number nearest to p / q, the even one of two.
unfoldable pub half_even : ℕ → ℕ → ℕ
half_even p q =
    let k = p / q in
    let r = p % q in if ltb q (2 * r) || (2 * r == q && k % 2 == 1) then k + 1 else k

-- The least exponent from e on at which n has at most 53 bits.
unfoldable pub exponent : ℕ → ℕ → ℕ → ℕ
exponent zero e n = e
exponent (suc f) e n = let more = exponent f (e + 1) n in if ltb n (2 ^ (53 + e)) then e else more

-- The float nearest to p / q units; the values that occur are below 2 ^ 34.
unfoldable pub round : ℕ → ℕ → ℕ
round p q = let e = exponent 128 0 (p / q) in half_even p (q * 2 ^ e) * 2 ^ e

-- `n as f64`
unfoldable pub of_u32 : ℕ → ℕ
of_u32 n = n * one

-- The literal n / 10.
unfoldable pub tenths : ℕ → ℕ
tenths n = round (n * one) 10

unfoldable pub add : ℕ → ℕ → ℕ
add a b = round (a + b) 1

unfoldable pub mul : ℕ → ℕ → ℕ
mul a b = round (a * b) one

unfoldable pub div : ℕ → ℕ → ℕ
div a b = round (a * one) b

-- The score of a peer that has broadcast.
unfoldable pub broadcast_score : ℕ → ℕ
broadcast_score broadcast_count =
    let broadcast_bonus =
      mul (div (min (of_u32 broadcast_count) (of_u32 10)) (of_u32 10)) (tenths 3) in
    add (tenths 7) broadcast_bonus

-- The score of any other; `total` wraps.
unfoldable pub ratio_score : ℕ → ℕ → ℕ
ratio_score success_count total =
    if total == 0 then tenths 3 else mul (div (of_u32 success_count) (of_u32 total)) (tenths 5)

unfoldable pub score : Peer → ℕ
score p =
    if ltb 0 p.broadcast_count
    then broadcast_score p.broadcast_count
    else ratio_score p.success_count ((p.success_count + p.failure_count) % 2 ^ 32)
