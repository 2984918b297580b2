-- ===== src/Ingestion/Peers/Choice.antt =====
-- Which peer the selection returns: one of the first three in the order of the comparison.
use qonduit.Common.{
  ℕ, zero, suc, ◌+◌, ◌%◌, ◌≤◌, ◌<◌, min, List, [], ◌∷◌, Bool, true, false, ◌≡◌, inl, inr, refl,
  subst, some, All, All-weaken, StandsIn, All-StandsIn, All-get_elem?, get_elem?-some, count,
  count-none, length, get_elem?, Bool-cases, if◌then◌else◌, arith,
}
use native.Mathlib.Nat.{mod-lt}
use qonduit.Ingestion.Peers.{Peer}
use qonduit.Ingestion.Peers.Selection.{before, insert, sort_peers, filter_peers, pick}

pub filter_peers-All {κ} :
    (P : Peer → Type κ) (f : Peer → Bool) (ps : List Peer) → All P ps → All P (filter_peers f ps)
unfolding filter_peers
filter_peers-All P f [] h = tt
filter_peers-All P f (p ∷ ps) (h, hs) = elim (Bool-cases (f p)) [
  | inl e ↦ rw e (h, filter_peers-All P f ps hs)
  | inr e ↦ rw e (filter_peers-All P f ps hs)
]

pub filter_peers-passes :
    (f : Peer → Bool) (ps : List Peer) → All (λ p. f p ≡ true) (filter_peers f ps)
unfolding filter_peers
filter_peers-passes f [] = tt
filter_peers-passes f (p ∷ ps) = elim (Bool-cases (f p)) [
  | inl e ↦ rw e (e, filter_peers-passes f ps)
  | inr e ↦ rw e (filter_peers-passes f ps)
]

-- Peers that fail the filter do not count, if they fail the other test too.
pub count-filter_peers :
    (f g : Peer → Bool)
    → ((p : Peer) → f p ≡ false → g p ≡ false)
    → (ps : List Peer) → count g (filter_peers f ps) ≡ count g ps
unfolding filter_peers
count-filter_peers f g h [] = refl
count-filter_peers f g h (p ∷ ps) = ground (arith, h p, count-filter_peers f g h ps)

module _ (now : ℕ) where
  pub before_asymm : (a b : Peer) → before now a b ≡ true → before now b a ≡ false
  unfolding before
  before_asymm a b h = ground arith

  before_irrefl : (a : Peer) → before now a a ≡ false
  unfolding before
  before_irrefl a = ground arith

  before_trans :
      (a b c : Peer) → before now a b ≡ false → before now b c ≡ false → before now a c ≡ false
  unfolding before
  before_trans a b c h k = ground arith

  insert-All {κ} :
      (P : Peer → Type κ) (p : Peer) (qs : List Peer) → P p → All P qs → All P (insert now p qs)
  unfolding insert
  insert-All P p [] h hs = (h, tt)
  insert-All P p (q ∷ qs) h (k, ks) = elim (Bool-cases (before now q p)) [
    | inl e ↦ rw e (k, insert-All P p qs h ks)
    | inr e ↦ rw e (h, (k, ks))
  ]

  sort_peers-All {κ} : (P : Peer → Type κ) (ps : List Peer) → All P ps → All P (sort_peers now ps)
  unfolding sort_peers
  sort_peers-All P [] h = tt
  sort_peers-All P (p ∷ ps) (h, hs) = insert-All P p (sort_peers now ps) h (sort_peers-All P ps hs)

  count-insert :
      (f : Peer → Bool) (p : Peer) (qs : List Peer)
      → count f (insert now p qs) ≡ (if f p then 1 else 0) + count f qs
  unfolding insert
  count-insert f p [] = refl
  count-insert f p (q ∷ qs) = ground (arith, count-insert f p qs)

  count-sort_peers : (f : Peer → Bool) (ps : List Peer) → count f (sort_peers now ps) ≡ count f ps
  unfolding sort_peers
  count-sort_peers f [] = refl
  count-sort_peers f (p ∷ ps) =
      omega (arith, count-insert f p (sort_peers now ps), count-sort_peers f ps)

  length-insert : (p : Peer) (qs : List Peer) → length (insert now p qs) ≡ suc (length qs)
  unfolding insert
  length-insert p [] = refl
  length-insert p (q ∷ qs) = ground (arith, length-insert p qs)

  length-sort_peers : (ps : List Peer) → length (sort_peers now ps) ≡ length ps
  unfolding sort_peers
  length-sort_peers [] = refl
  length-sort_peers (p ∷ ps) =
      omega (arith, length-insert p (sort_peers now ps), length-sort_peers ps)

  abbrev IsSorted : List Peer → Type 0
  IsSorted [] = Unit
  IsSorted (p ∷ ps) = All (λ q. before now q p ≡ false) ps × IsSorted ps

  insert-IsSorted : (p : Peer) (qs : List Peer) → IsSorted qs → IsSorted (insert now p qs)
  unfolding insert
  insert-IsSorted p [] h = (tt, tt)
  insert-IsSorted p (q ∷ qs) (first, rest) = elim (Bool-cases (before now q p)) [
    | inl e ↦ rw e (
      insert-All (λ r. before now r q ≡ false) p qs (before_asymm q p e) first,
      insert-IsSorted p qs rest,
    )
    | inr e ↦ rw e (
      (e, All-weaken (λ (r : Peer) (h : before now r q ≡ false). before_trans r q p h e) qs first),
      (first, rest),
    )
  ]

  sort_peers-IsSorted : (ps : List Peer) → IsSorted (sort_peers now ps)
  unfolding sort_peers
  sort_peers-IsSorted [] = tt
  sort_peers-IsSorted (p ∷ ps) = insert-IsSorted p (sort_peers now ps) (sort_peers-IsSorted ps)

  none_before_first :
      (p : Peer) (ps : List Peer)
      → All (λ q. before now q p ≡ false) ps
      → count (λ q. before now q p) (p ∷ ps) ≤ 0
  none_before_first p ps first =
      ground (arith, before_irrefl p, count-none (λ q. before now q p) ps first)

  -- At the place i of a sorted list at most i peers come before.
  few_before :
      (ps : List Peer) (i : ℕ) (p : Peer)
      → IsSorted ps
      → get_elem? ps i ≡ some p
      → count (λ q. before now q p) ps ≤ i
  few_before [] i p h e = absurd (cc)
  few_before (q ∷ qs) zero p (first, rest) e =
      subst (λ r. count (λ x. before now x r) (q ∷ qs) ≤ 0) (cc) (none_before_first q qs first)
  few_before (q ∷ qs) (suc i) p (first, rest) e =
      let less = few_before qs i p rest e in ground arith

  -- A peer of the list that fewer than three others come before.
  abbrev pub IsNearTop : List Peer → Peer → Type 0
  IsNearTop ps p = StandsIn ps p × (count (λ q. before now q p) ps < 3)

  pub pick-IsNearTop :
      (random : ℕ) (c : Peer) (cs : List Peer)
      → (p : Peer) × (pick now random (c ∷ cs) ≡ some p.addr) × IsNearTop (c ∷ cs) p
  unfolding pick
  pick-IsNearTop random c cs =
      let top = min (length (c ∷ cs)) 3 in
      let below : random % top < top = mod-lt random (omega arith) in
      let sorted = sort_peers now (c ∷ cs) in
      let (p, e) =
        get_elem?-some sorted (random % top) (omega (arith, below, length-sort_peers (c ∷ cs))) in
      (
        p,
        rw e refl,
        (
          All-get_elem? (StandsIn (c ∷ cs)) sorted (random % top) p
              (sort_peers-All (StandsIn (c ∷ cs)) (c ∷ cs) (All-StandsIn (c ∷ cs))) e,
          omega (
            arith,
            few_before sorted (random % top) p (sort_peers-IsSorted (c ∷ cs)) e,
            count-sort_peers (λ q. before now q p) (c ∷ cs),
          ),
        ),
      )
