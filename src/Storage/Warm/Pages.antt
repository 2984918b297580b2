-- ===== src/Storage/Warm/Pages.antt =====
-- A page of rows: what the loop of `get_entity_history` in crates/storage/src/warm.rs collects.
use qonduit.Common.{
  ℕ, zero, suc, ◌+◌, ◌*◌, ◌-◌, ◌/◌, ◌%◌, ◌^◌, ◌<◌, ◌≡◌, refl, sym, ap, subst, ◌∙◌, List, [], ◌∷◌,
  ◌++◌, map, true, false, ◌&&◌, ◌==◌, ltb, length, take, drop, Option, none, some, arith,
  Bool-cases, inl, inr, All, All-drop, ==_iff, length-drop,
}
use qonduit.Bytes.{Bytes, IsByte, IsBytes, to_be, from_be}
use qonduit.Bytes.Endian.{from_be-to_be}
use qonduit.Bytes.Slices.{cut}
use qonduit.Core.Epochs.{EpochRange, get_epoch_range}
use qonduit.Storage.Keys.{Entry, has_prefix, scan_prefix}
use qonduit.Storage.Keys.Numbers.{from_be-lt, to_be-from_be}
use qonduit.Storage.Keys.Rows.{Row}
use qonduit.Storage.Keys.Windows.{rows_from, rows_to}
use qonduit.Storage.Database.{Database}
use qonduit.Storage.Warm.{get_tx}
use qonduit.Storage.Warm.Scans.{beyond, history}
use qonduit.Storage.Warm.Changes.{IsKey}
use qonduit.Storage.Warm.ByEntity.{two_words}

-- The rows of the ticks up to one, or all rows.
unfoldable pub ticks_to : Option ℕ → List Row → List Row
ticks_to none rs = rs
ticks_to (some t) rs = rows_to (t * 2 ^ 32 + (2 ^ 32 - 1)) rs

-- The rows of an epoch, if its range is known: from its first tick to its last one.
unfoldable pub rows_of_range : Option EpochRange → List Row → List Row
rows_of_range none rs = []
rows_of_range (some r) rs = ticks_to (some r.last_tick) (rows_from (r.first_tick * 2 ^ 32) rs)

-- The rows that a page is taken from.
unfoldable pub rows_of : List EpochRange → Option ℕ → List Row → List Row
rows_of ranges none rs = rs
rows_of ranges (some epoch) rs = rows_of_range (get_epoch_range ranges epoch) rs

-- The first tick of a range, if there is one, is a u32.
abbrev pub InBounds : Option EpochRange → Type 0
InBounds none = Unit
InBounds (some r) = r.first_tick < 2 ^ 32

pub get_epoch_range-InBounds :
    (ranges : List EpochRange) (epoch : ℕ)
    → All (λ r. r.first_tick < 2 ^ 32) ranges
    → InBounds (get_epoch_range ranges epoch)
unfolding get_epoch_range
get_epoch_range-InBounds [] epoch h = tt
get_epoch_range-InBounds (r ∷ rs) epoch (h, hs) = elim (Bool-cases (r.epoch == epoch)) [
  | inl here ↦ rw here h
  | inr other ↦ rw other (get_epoch_range-InBounds rs epoch hs)
]

-- The row of an entity's key.
abbrev pub entity_row : Entry → Row
entity_row e = (from_be (drop 32 e.0), e.1)

high_word : (b : Bytes) → length b ≡ 8 → IsBytes b → from_be (take 4 b) ≡ from_be b / 2 ^ 32
high_word b l h =
    let i = from_be b in
    let split : b ≡ to_be 4 (i / 2 ^ 32) ++ to_be 4 (i % 2 ^ 32) =
      sym (to_be-from_be 8 b l h) ∙ sym (two_words i) in
    let first : take 4 b ≡ to_be 4 (i / 2 ^ 32) = ap (take 4) split ∙ (unfold to_be in refl) in
    let bound : i < 256 ^ 8 = subst (λ m. i < 256 ^ m) l (from_be-lt b h) in
    ap from_be first ∙ from_be-to_be 4 (i / 2 ^ 32) (omega arith)

beyond-tick : (t i : ℕ) → beyond (some t) (i / 2 ^ 32) ≡ ltb (t * 2 ^ 32 + (2 ^ 32 - 1)) i
unfolding beyond
beyond-tick t i = ground arith

ticks_to-nil : (upper : Option ℕ) → ticks_to upper [] ≡ []
unfolding ticks_to rows_to
ticks_to-nil none = refl
ticks_to-nil (some t) = refl

ticks_to-beyond :
    (upper : Option ℕ) (i : ℕ) (v : Bytes) (rs : List Row)
    → beyond upper (i / 2 ^ 32) ≡ true
    → ticks_to upper ((i, v) ∷ rs) ≡ []
unfolding ticks_to rows_to
ticks_to-beyond none i v rs h = absurd (unfold beyond in cc)
ticks_to-beyond (some t) i v rs h = ground (arith, beyond-tick t i)

ticks_to-within :
    (upper : Option ℕ) (i : ℕ) (v : Bytes) (rs : List Row)
    → beyond upper (i / 2 ^ 32) ≡ false
    → ticks_to upper ((i, v) ∷ rs) ≡ (i, v) ∷ ticks_to upper rs
unfolding ticks_to rows_to
ticks_to-within none i v rs h = refl
ticks_to-within (some t) i v rs h = ground (arith, beyond-tick t i)

-- One more row of a page, if its transaction is there.
one_more :
    (r : Option Bytes) (l t u : ℕ)
    → t ≡ u
    → (skipped taken rs : List Row) → skipped ≡ take (suc l) rs
    → taken ≡ take l rs
    → (elim r [ none ↦ skipped | some bytes ↦ (t, bytes) ∷ taken ])
      ≡ take (suc l) (elim r [ none ↦ rs | some bytes ↦ (u, bytes) ∷ rs ])
one_more none l t u e skipped taken rs h k = h
one_more (some bytes) l t u e skipped taken rs h k = cc

module _ (db : Database) (s : db.Store) where
  -- The rows whose transaction is stored, with it in place of its hash.
  unfoldable pub present : List Row → List Row
  present [] = []
  present ((i, hash) ∷ rs) = elim (get_tx db hash s) [
    | none ↦ present rs
    | some bytes ↦ (i / 2 ^ 32, bytes) ∷ present rs
  ]

  abbrev pub page : List Row → ℕ → ℕ → List Row
  page rs offset limit = take limit (present (drop offset rs))

  pub page-nil : (o l : ℕ) → page [] o l ≡ []
  unfolding present
  page-nil zero zero = refl
  page-nil zero (suc l) = refl
  page-nil (suc o) zero = refl
  page-nil (suc o) (suc l) = refl

  -- One more row in front, if the loop does the rest.
  page-step :
      (rest : ℕ → ℕ → List Row) (t i : ℕ) (v : Bytes) (rs : List Row)
      → t ≡ i / 2 ^ 32
      → ((o l : ℕ) → rest o l ≡ page rs o l)
      → (o l : ℕ)
      → (elim o [
        | suc o' ↦ rest o' l
        | zero ↦ elim l [
          | zero ↦ []
          | suc l' ↦ elim (get_tx db v s) [
            | none ↦ rest zero (suc l')
            | some bytes ↦ (t, bytes) ∷ rest zero l'
          ]
        ]
      ])
        ≡ page ((i, v) ∷ rs) o l
  unfolding present
  page-step rest t i v rs e h (suc o) l = h o l
  page-step rest t i v rs e h zero zero = refl
  page-step rest t i v rs e h zero (suc l) =
      one_more (get_tx db v s) l t (i / 2 ^ 32) e (rest zero (suc l)) (rest zero l) (present rs)
        (h zero (suc l)) (h zero l)

  module _ (entity : Bytes) (upper : Option ℕ) where
    unfoldable pub window : List Entry → List Row
    window es = ticks_to upper (map entity_row es)

    pub history-page :
        (es : List Entry)
        → All (λ e. IsKey 40 e.0 × (length e.1 ≡ 32)) es
        → (o l : ℕ)
        → history db s entity upper o l es ≡ page (window (scan_prefix 40 entity es)) o l
    unfolding history scan_prefix window
    history-page [] h o l = rw (ticks_to-nil upper) (sym (page-nil o l))
    history-page ((k, v) ∷ es) (((m, b), n), hs) o l =
        elim (Bool-cases (length k == 40 && has_prefix entity k)) [
          | inr stop ↦ rw (stop, ticks_to-nil upper) (sym (page-nil o l))
          | inl here ↦
              let low : length (drop 32 k) ≡ 8 = omega (arith, length-drop 32 k) in
              let tick : from_be (cut k 32 36) ≡ from_be (drop 32 k) / 2 ^ 32 =
                high_word (drop 32 k) low (All-drop IsByte 32 k b) in
              elim (Bool-cases (beyond upper (from_be (drop 32 k) / 2 ^ 32))) [
                | inl out ↦
                    rw (here, tick, out, ticks_to-beyond upper (from_be (drop 32 k)) v _ out)
                      (sym (page-nil o l))
                | inr within ↦
                    rw
                      (
                        here,
                        ap (beyond upper) tick ∙ within,
                        (==_iff _ _).1 n,
                        ticks_to-within upper (from_be (drop 32 k)) v _ within,
                      )
                      (page-step (λ o l. history db s entity upper o l es) (from_be (cut k 32 36))
                        (from_be (drop 32 k)) v _ tick (λ o l. history-page es hs o l) o l)
              ]
        ]
