-- ===== src/Ingestion/Peers/Rounding.antt =====
-- Bounds of the rounded operations and of the scores.
use qonduit.Common.{
  List, [], ◌∷◌, All, ==_iff, ℕ, zero, suc, ◌+◌, ◌-◌, ◌*◌, ◌/◌, ◌%◌, ◌^◌, ◌≤◌, ◌<◌, min, ◌≡◌, ◌∙◌,
  ap, sym, subst, lt→ltb, refl, ltb, ◌==◌, Bool-cases, inl, inr, true, arith,
}
use native.Mathlib.Nat.{
  pow-suc, mul_assoc, mul-le-mul_right, one-le-pow, mul-pos, pow-zero, mul_comm, div-lt_iff_lt-mul,
  mod-eq-sub-div-mul,
}
use native.Mathlib.Decide.{dec_le}
use qonduit.Ingestion.Peers.Scores.{
  one, half_even, exponent, round, of_u32, tenths, add, mul, div, broadcast_score, ratio_score,
}

pow-add : (a b : ℕ) → 2 ^ (a + b) ≡ 2 ^ a * 2 ^ b
pow-add a zero = let same : a + zero ≡ a = omega arith in rw (same, pow-zero 2) (omega arith)
pow-add a (suc b) =
    let next : a + suc b ≡ suc (a + b) = omega arith in
    rw (next, pow-suc 2 (a + b), pow-suc 2 b, pow-add a b) (mul_assoc (2 ^ a) (2 ^ b) 2)

quotient-le : (p q c : ℕ) → 0 < q → p ≤ c * q → p / q ≤ c
quotient-le p q c pos le =
    let below : p / q < c + 1 = (div-lt_iff_lt-mul pos).1 (grind arith) in omega arith

-- A quotient that reaches the bound leaves no rest.
rest_at_bound : (p q c : ℕ) → p ≤ c * q → p / q ≡ c → p % q ≡ 0
rest_at_bound p q c le e = mod-eq-sub-div-mul p q ∙ rw e (omega arith)

half_even-le : (p q c : ℕ) → 0 < q → p ≤ c * q → half_even p q ≤ c
unfolding half_even
half_even-le p q c pos le = ground (arith, quotient-le p q c pos le, rest_at_bound p q c le)

exponent-le : (f e n t : ℕ) → e ≤ t → n < 2 ^ (53 + t) → exponent f e n ≤ t
unfolding exponent
exponent-le zero e n t le small = le
exponent-le (suc f) e n t le small = elim (Bool-cases (ltb n (2 ^ (53 + e)))) [
  | inl fits ↦ rw fits le
  | inr more ↦
      let below : e + 1 ≤ t = elim (dec_le (e + 1) t) [
        | yes h ↦ h
        | no h ↦
            let same : e ≡ t = omega arith in
            let fits : ltb n (2 ^ (53 + e)) ≡ true = rw same (lt→ltb n (2 ^ (53 + t)) small) in
            absurd (ground arith)
      ] in
      rw more (exponent-le f (e + 1) n t below small)
]

round-le : (p q t : ℕ) → 0 < q → p ≤ 2 ^ t * q → round p q ≤ 2 ^ t
unfolding round
round-le p q t pos le =
    let n = p / q in
    let e = exponent 128 0 n in
    let fits : n ≤ 2 ^ t = quotient-le p q (2 ^ t) pos le in
    let grows : 2 ^ (53 + t) ≡ 2 ^ 53 * 2 ^ t = pow-add 53 t in
    let some : 1 ≤ 2 ^ t = one-le-pow t 2 (omega arith) in
    let e-le : e ≤ t = exponent-le 128 0 n t (omega arith) (omega arith) in
    let parts : t - e + e ≡ t = omega arith in
    let split : 2 ^ t ≡ 2 ^ (t - e) * 2 ^ e = ap (λ k. 2 ^ k) (sym parts) ∙ pow-add (t - e) e in
    let regroup : 2 ^ t * q ≡ 2 ^ (t - e) * (q * 2 ^ e) =
      rw split
        (mul_assoc (2 ^ (t - e)) (2 ^ e) q ∙ ap (λ k. 2 ^ (t - e) * k) (mul_comm (2 ^ e) q)) in
    let unit : 0 < 2 ^ e = one-le-pow e 2 (omega arith) in
    let rounded : half_even p (q * 2 ^ e) ≤ 2 ^ (t - e) =
      half_even-le p (q * 2 ^ e) (2 ^ (t - e)) (mul-pos pos unit) (omega arith) in
    subst (λ k. half_even p (q * 2 ^ e) * 2 ^ e ≤ k) (sym split) (mul-le-mul_right (2 ^ e) rounded)

-- A quotient of at most one, and half of it.
ratio-le : (s total : ℕ) → 0 < total → s ≤ total → div (of_u32 s) (of_u32 total) ≤ 2 ^ 128
unfolding div of_u32
ratio-le s total pos le = round-le (s * one * one) (total * one) 128 (omega arith) (omega arith)

three_tenths : tenths 3 ≤ 2 ^ 127
unfolding tenths round half_even exponent
three_tenths = omega arith

half-le : (a : ℕ) → a ≤ 2 ^ 128 → mul a (tenths 5) ≤ 2 ^ 127
unfolding mul tenths round half_even exponent
half-le a le = round-le (a * round (5 * one) 10) one 127 (omega arith) (omega arith)

-- A peer that has not broadcast scores at most one half, if the sum of its counts does not wrap.
pub ratio_score-le : (s total : ℕ) → s ≤ total → ratio_score s total ≤ 2 ^ 127
unfolding ratio_score
ratio_score-le s total le = elim (Bool-cases (total == 0)) [
  | inl e ↦ rw e (omega (arith, three_tenths))
  | inr e ↦ rw e (half-le _ (ratio-le s total (ground arith) le))
]

-- The numbers below n.
abbrev down : ℕ → List ℕ
down zero = []
down (suc n) = n ∷ down n

All-down : (P : ℕ → Type 0) (n : ℕ) → All P (down n) → (m : ℕ) → m < n → P m
All-down P zero h m le = absurd (omega arith)
All-down P (suc n) (p, ps) m le = elim (Bool-cases (m == n)) [
  | inl e ↦ subst P (sym ((==_iff m n).0 e)) p
  | inr e ↦ All-down P n ps m (ground arith)
]

abbrev IsHigh : ℕ → Type 0
IsHigh m = 2 ^ 127 < broadcast_score (suc m)

high : All IsHigh (down 10)
unfolding broadcast_score add mul div of_u32 tenths round half_even exponent
high = omega arith

capped : (n : ℕ) → broadcast_score n ≡ broadcast_score (min n 10)
unfolding broadcast_score of_u32
capped n =
    let same : min (n * one) (10 * one) ≡ min (min n 10 * one) (10 * one) = omega arith in
    rw same refl

-- A peer that has broadcast scores more than one half.
pub broadcast_score-gt : (n : ℕ) → 0 < n → 2 ^ 127 < broadcast_score n
broadcast_score-gt n pos =
    let step : suc (min n 10 - 1) ≡ min n 10 = omega arith in
    subst (λ k. 2 ^ 127 < k) (ap broadcast_score step ∙ sym (capped n))
      (All-down IsHigh 10 high (min n 10 - 1) (omega arith))
