-- ===== src/Ingestion/Backfill/Partition.antt =====
-- The workers of a phase share out the ticks of the range.
use qonduit.Common.{
  ℕ, zero, suc, ◌+◌, ◌-◌, ◌*◌, ◌^◌, ◌≤◌, ◌<◌, min, max, List, [], ◌∷◌, ◌++◌, ◌≡◌, refl, ap, ◌∙◌,
  leb, Bool-cases, inl, inr, arith, leb→le, append-nil, if◌then◌else◌,
}
use native.Mathlib.Nat.{mod-eq_of_lt, div-mul-le_self}
use qonduit.Ingestion.Backfill.Plan.{
  Assignment, chunk_size, chunk_start, assignment, assign, partition,
}

-- The n numbers from a on.
abbrev pub ticks : ℕ → ℕ → List ℕ
ticks a zero = []
ticks a (suc n) = a ∷ ticks (a + 1) n

-- The ticks of the workers, one worker after another.
abbrev pub ticks_of : List Assignment → List ℕ
ticks_of [] = []
ticks_of (a ∷ as') = ticks a.worker_start (a.worker_end - a.worker_start) ++ ticks_of as'

pub ticks-append : (a n m : ℕ) → ticks a n ++ ticks (a + n) m ≡ ticks a (n + m)
ticks-append a zero m =
    let e : a + 0 ≡ a = omega arith in let f : 0 + m ≡ m = omega arith in rw (e, f) refl
ticks-append a (suc n) m =
    let e : a + suc n ≡ a + 1 + n = omega arith in
    let f : suc n + m ≡ suc (n + m) = omega arith in
    rw (e, f) (ap (λ l. a ∷ l) (ticks-append (a + 1) n m))

ticks_none : (a n : ℕ) → n ≡ 0 → ticks a n ≡ []
ticks_none a zero h = refl
ticks_none a (suc n) h = absurd (omega arith)

-- A range that is cut at b, both parts up to e at most.
split_ticks : (a b e : ℕ) → a ≤ b → ticks a (min b e - a) ++ ticks b (e - b) ≡ ticks a (e - a)
split_ticks a b e h = elim (Bool-cases (leb b e)) [
  | inl t ↦
      let le = leb→le b e t in
      let p : min b e - a ≡ b - a = omega arith in
      let q : b ≡ a + (b - a) = omega arith in
      let r : b - a + (e - b) ≡ e - a = omega arith in
      let joined : ticks a (b - a) ++ ticks (a + (b - a)) (e - b) ≡ ticks a (b - a + (e - b)) =
        ticks-append a (b - a) (e - b) in
      cc (p, q, r, joined)
  | inr f ↦
      let p : min b e - a ≡ e - a = ground arith in
      let q : ticks b (e - b) ≡ [] = ticks_none b (e - b) (ground arith) in
      rw (p, q) (append-nil (ticks a (e - a)))
]

chunk_start_lem :
    (start_tick chunk id : ℕ)
    → start_tick + id * chunk < 2 ^ 32
    → 0 < chunk
    → chunk_start start_tick chunk id ≡ start_tick + id * chunk
unfolding chunk_start
chunk_start_lem start_tick chunk zero h p = omega arith
chunk_start_lem start_tick chunk (suc id) h p =
    let small : suc id < 2 ^ 32 = grind arith in
    let narrow : chunk < 2 ^ 32 = grind arith in
    rw (mod-eq_of_lt small, mod-eq_of_lt narrow) (omega arith)

-- The range of a worker, empty or not, and those of the later ones.
ticks_of-keep :
    (a : Assignment) (rest : List Assignment)
    → ticks_of (if leb a.worker_end a.worker_start then rest else a ∷ rest)
      ≡ ticks a.worker_start (a.worker_end - a.worker_start) ++ ticks_of rest
ticks_of-keep a rest = elim (Bool-cases (leb a.worker_end a.worker_start)) [
  | inl t ↦
      let le = leb→le a.worker_end a.worker_start t in
      rw (t, ticks_none a.worker_start (a.worker_end - a.worker_start) (omega arith)) refl
  | inr f ↦ rw f refl
]

last_assignment :
    (start_tick end_tick workers chunk id : ℕ)
    → id + 1 ≡ workers
    → (assignment start_tick end_tick workers chunk id).worker_end ≡ end_tick
unfolding assignment
last_assignment start_tick end_tick workers chunk id h = ground arith

inner_assignment :
    (start_tick end_tick workers chunk id : ℕ)
    → id + 1 < workers
    → (assignment start_tick end_tick workers chunk id).worker_end
      ≡ min (chunk_start start_tick chunk (id + 1)) end_tick
unfolding assignment
inner_assignment start_tick end_tick workers chunk id h = ground arith

module _ (start_tick end_tick workers chunk : ℕ) where
  starts : ℕ → ℕ
  starts id = (assignment start_tick end_tick workers chunk id).worker_start

  ends : ℕ → ℕ
  ends id = (assignment start_tick end_tick workers chunk id).worker_end

  ticks_of-step :
      (n id : ℕ)
      → ticks_of (assign (suc n) id start_tick end_tick workers chunk)
        ≡ ticks (starts id) (ends id - starts id)
          ++ ticks_of (assign n (id + 1) start_tick end_tick workers chunk)
  unfolding assign starts ends
  ticks_of-step n id =
      ticks_of-keep (assignment start_tick end_tick workers chunk id)
        (assign n (id + 1) start_tick end_tick workers chunk)

  ticks_of-none : (id : ℕ) → ticks_of (assign zero id start_tick end_tick workers chunk) ≡ []
  unfolding assign
  ticks_of-none id = refl

  module _ (positive : 0 < chunk) (fits : start_tick + workers * chunk < 2 ^ 32) where
    starts_lem : (id : ℕ) → id ≤ workers → starts id ≡ start_tick + id * chunk
    unfolding starts assignment
    starts_lem id h = chunk_start_lem start_tick chunk id (grind arith) positive

    ends_lem : (id : ℕ) → id + 1 < workers → ends id ≡ min (start_tick + (id + 1) * chunk) end_tick
    unfolding ends starts assignment
    ends_lem id h =
        let e = inner_assignment start_tick end_tick workers chunk id h in
        let next = chunk_start_lem start_tick chunk (id + 1) (grind arith) positive in
        e ∙ ap (λ x. min x end_tick) next

    ticks_of-assign :
        (n id : ℕ)
        → id + suc n ≡ workers
        → ticks_of (assign (suc n) id start_tick end_tick workers chunk)
          ≡ ticks (start_tick + id * chunk) (end_tick - (start_tick + id * chunk))
    unfolding ends
    ticks_of-assign zero id e =
        let last = last_assignment start_tick end_tick workers chunk id e in
        rw (ticks_of-step zero id, ticks_of-none (id + 1), starts_lem id (omega arith), last)
          (append-nil (ticks (start_tick + id * chunk) (end_tick - (start_tick + id * chunk))))
    ticks_of-assign (suc n) id e =
        let a = start_tick + id * chunk in
        let b = start_tick + (id + 1) * chunk in
        rw
          (
            ticks_of-step (suc n) id,
            ticks_of-assign n (id + 1) (omega arith),
            starts_lem id (omega arith),
            ends_lem id (omega arith),
          )
          (split_ticks a b end_tick (grind arith))

chunk_pos : (count workers : ℕ) → 0 < chunk_size count workers
unfolding chunk_size
chunk_pos count workers = omega arith

chunks_fit :
    (count workers : ℕ) → 0 < workers → workers * chunk_size count workers ≤ max count workers
unfolding chunk_size
chunks_fit count workers h = grind (arith, div-mul-le_self workers count)

-- The ranges of the workers, one after another, hold exactly the ticks from the start up to the
-- end, each once and in order, whatever number of ticks the chunks are computed from, if the start
-- plus that number, or plus the number of workers, stays in u32.
pub ticks_of-partition :
    (workers count start_tick end_tick : ℕ)
    → start_tick + max count (max workers 1) < 2 ^ 32
    → ticks_of (partition workers count start_tick end_tick)
      ≡ ticks start_tick (end_tick - start_tick)
unfolding partition
ticks_of-partition workers count start_tick end_tick h =
    let w = max workers 1 in
    let chunk = chunk_size count w in
    let from_zero : start_tick + 0 * chunk ≡ start_tick = omega arith in
    let one_more : suc (w - 1) ≡ w = omega arith in
    let all_ticks : ticks_of (assign (suc (w - 1)) 0 start_tick end_tick w chunk)
        ≡ ticks (start_tick + 0 * chunk) (end_tick - (start_tick + 0 * chunk)) =
      ticks_of-assign start_tick end_tick w chunk (chunk_pos count w)
        (omega (arith, chunks_fit count w (omega arith))) (w - 1) 0 (omega arith) in
    rw (one_more, from_zero) at all_ticks
