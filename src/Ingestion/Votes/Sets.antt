-- ===== src/Ingestion/Votes/Sets.antt =====
-- The maps and sets of the aggregator.
use qonduit.Common.{ℕ, ◌+◌, ◌≤◌, ◌≡◌, ◌↔◌, refl, List, [], ◌∷◌, true, length, if◌then◌else◌, arith}
use qonduit.Ingestion.Votes.{Key, key_eq, insert_index, votes_for, put_votes, insert_sorted, sort}

pub key_eq_iff : (j k : Key) → (key_eq j k ≡ true) ↔ (j ≡ k)
unfolding key_eq
key_eq_iff (e, t) (e', t') = (λ h. ground arith, λ h. ground arith)

pub key_eq_refl : (k : Key) → key_eq k k ≡ true
key_eq_refl k = (key_eq_iff k k).1 refl

pub votes_for-put_votes :
    (k j : Key) (s : List ℕ) (m : List (Key × List ℕ))
    → votes_for j (put_votes k s m) ≡ (if key_eq k j then s else votes_for j m)
unfolding votes_for put_votes
votes_for-put_votes k j s [] = refl
votes_for-put_votes k j s ((i, t) ∷ m) =
    ground (arith, key_eq_iff i k, key_eq_iff k j, key_eq_iff i j, votes_for-put_votes k j s m)

pub length-insert_index_le :
    (c : ℕ) (s : List ℕ)
    → (length s ≤ length (insert_index c s)) × (length (insert_index c s) ≤ length s + 1)
unfolding insert_index
length-insert_index_le c s = ground arith

length-insert_sorted : (x : ℕ) (ys : List ℕ) → length (insert_sorted x ys) ≡ length ys + 1
unfolding insert_sorted
length-insert_sorted x [] = omega arith
length-insert_sorted x (y ∷ ys) = ground (arith, length-insert_sorted x ys)

pub length-sort : (xs : List ℕ) → length (sort xs) ≡ length xs
unfolding sort
length-sort [] = refl
length-sort (x ∷ xs) = omega (arith, length-insert_sorted x (sort xs), length-sort xs)
