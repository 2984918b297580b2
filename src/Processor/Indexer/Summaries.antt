-- ===== src/Processor/Indexer/Summaries.antt =====
-- The statistics that counting ticks one after another gives.
use qonduit.Common.{
  ℕ, suc, ◌+◌, ◌%◌, ◌^◌, ◌≡◌, refl, ap, ◌∙◌, List, [], ◌∷◌, ◌++◌, length, arith, Option, none, some,
  min, max,
}
use qonduit.Core.Pipeline.{EpochStats, default_stats}
use qonduit.Processor.Indexer.{unwrap_or, count_tick}

-- The least and the greatest tick of a list.
unfoldable pub least : List ℕ → Option ℕ
least [] = none
least (t ∷ ts) = elim (least ts) [ none ↦ some t | some m ↦ some (min t m) ]

unfoldable pub greatest : List ℕ → Option ℕ
greatest [] = none
greatest (t ∷ ts) = elim (greatest ts) [ none ↦ some t | some m ↦ some (max t m) ]

-- The statistics of an epoch with these ticks.
unfoldable pub summary : ℕ → List ℕ → EpochStats
summary epoch ts = record {
  epoch = epoch;
  tick_count = length ts % 2 ^ 32;
  tx_count = 0;
  entity_count = 0;
  first_tick = least ts;
  last_tick = greatest ts;
}

-- Counting ticks one after another.
unfoldable pub count_ticks : List ℕ → EpochStats → EpochStats
count_ticks [] st = st
count_ticks (t ∷ ts) st = count_ticks ts (count_tick t st)

pub count_ticks-append :
    (ts us : List ℕ) (st : EpochStats)
    → count_ticks (ts ++ us) st ≡ count_ticks us (count_ticks ts st)
unfolding count_ticks
count_ticks-append [] us st = refl
count_ticks-append (t ∷ ts) us st = count_ticks-append ts us (count_tick t st)

-- Statistics in which only ticks are counted.
abbrev partial : ℕ → ℕ → Option ℕ → Option ℕ → EpochStats
partial e n f l = record {
  epoch = e;
  tick_count = n % 2 ^ 32;
  tx_count = 0;
  entity_count = 0;
  first_tick = f;
  last_tick = l;
}

abbrev lesser : Option ℕ → Option ℕ → Option ℕ
lesser none o = o
lesser (some a) none = some a
lesser (some a) (some b) = some (min a b)

abbrev greater : Option ℕ → Option ℕ → Option ℕ
greater none o = o
greater (some a) none = some a
greater (some a) (some b) = some (max a b)

lesser-step :
    (t : ℕ) (f m : Option ℕ)
    → lesser (some (min (unwrap_or t f) t)) m
      ≡ lesser f (elim m [ none ↦ some t | some m ↦ some (min t m) ])
lesser-step t none none = ap some (omega arith)
lesser-step t none (some m) = ap some (omega arith)
lesser-step t (some a) none = refl
lesser-step t (some a) (some m) = ap some (omega arith)

greater-step :
    (t : ℕ) (f m : Option ℕ)
    → greater (some (max (unwrap_or t f) t)) m
      ≡ greater f (elim m [ none ↦ some t | some m ↦ some (max t m) ])
greater-step t none none = ap some (omega arith)
greater-step t none (some m) = ap some (omega arith)
greater-step t (some a) none = refl
greater-step t (some a) (some m) = ap some (omega arith)

lesser-none : (f : Option ℕ) → lesser f none ≡ f
lesser-none none = refl
lesser-none (some a) = refl

greater-none : (f : Option ℕ) → greater f none ≡ f
greater-none none = refl
greater-none (some a) = refl

count_ticks-partial :
    (e n : ℕ) (f l : Option ℕ) (ts : List ℕ)
    → count_ticks ts (partial e n f l)
      ≡ partial e (n + length ts) (lesser f (least ts)) (greater l (greatest ts))
unfolding count_ticks count_tick least greatest
count_ticks-partial e n f l [] =
    let same : n + 0 ≡ n = omega arith in rw (same, lesser-none f, greater-none l)
count_ticks-partial e n f l (t ∷ ts) =
    let low = some (min (unwrap_or t f) t) in
    let high = some (max (unwrap_or t l) t) in
    let one_more : (n % 2 ^ 32 + 1) % 2 ^ 32 ≡ (n + 1) % 2 ^ 32 = omega arith in
    let count : n + 1 + length ts ≡ n + suc (length ts) = omega arith in
    ap (λ c. count_ticks ts (record (partial e n low high) { tick_count = c })) one_more
    ∙ count_ticks-partial e (n + 1) low high ts
    ∙ ap (λ c. partial e c (lesser low (least ts)) (greater high (greatest ts))) count
    ∙ ap (λ f. partial e (n + suc (length ts)) f (greater high (greatest ts)))
        (lesser-step t f (least ts))
    ∙ ap (partial e (n + suc (length ts)) (lesser f (least (t ∷ ts))))
        (greater-step t l (greatest ts))

pub count_ticks-summary :
    (e : ℕ) (ts : List ℕ) → count_ticks ts (record default_stats { epoch = e }) ≡ summary e ts
unfolding summary
count_ticks-summary e ts =
    count_ticks-partial e 0 none none ts
    ∙ ap (λ n. partial e n (least ts) (greatest ts)) (omega arith)
