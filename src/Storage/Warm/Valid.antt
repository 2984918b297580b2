-- ===== src/Storage/Warm/Valid.antt =====
-- The entries of the store keep their look through any sequence of writes.
use qonduit.Common.{
  ℕ, ◌+◌, ◌≡◌, refl, subst, List, [], ◌∷◌, ◌++◌, Bool, true, false, Option, none, some,
  if◌then◌else◌, All, All-append, Bool-cases, inl, inr, arith, length-append,
}
use qonduit.Bytes.{Bytes, IsByte, to_be}
use qonduit.Bytes.Endian.{length-to_be}
use qonduit.Core.Identity.{bytes_eq}
use qonduit.Storage.Keys.{Entry, before, set_value}
use qonduit.Storage.Keys.Numbers.{to_be-IsBytes}
use qonduit.Storage.Database.{
  Cf, cf_tick, cf_tx, cf_tx_by_tick, cf_tx_by_entity, cf_entity, cf_spectrum, cf_asset,
  cf_computors, cf_contract_ipo, cf_custom_message, cf_entity_asset, cf_log_event, cf_tick_vote,
  cf_meta, cf_oracle, cf_epoch_stats, cf_eq, Write, start, after_writes, Database, IsLawful,
}
use qonduit.Storage.Warm.{
  put_tick, put_tx, put_tx_for_tick, put_tx_for_entity, put_entity, put_spectrum_entry, put_asset,
  put_computors, put_contract_ipo, put_custom_message, put_entity_asset, put_log_event,
  put_tick_vote, put_meta, put_oracle, put_epoch_stats, batch_write, batch_put_tx, batch_put_tick,
  entity_write,
}
use qonduit.Storage.Warm.Changes.{
  IsKey, Fits, Change, OptionKey, HasArrays, change, changes, tick, tx, tx_for_tick, tx_for_entity,
  entity, spectrum_entry, asset, computors, contract_ipo, custom_message, entity_asset, log_event,
  tick_vote, meta, oracle, epoch_stats, tx_batch, tick_batch,
}

set_value-All {ℓ} :
    (P : Entry → Type ℓ) (k v : Bytes) (es : List Entry)
    → P (k, v)
    → All P es
    → All P (set_value k v es)
unfolding set_value
set_value-All P k v [] h a = (h, tt)
set_value-All P k v ((j, w) ∷ es) h (a, ws) = elim (Bool-cases (bytes_eq j k)) [
  | inl same ↦ rw same (h, ws)
  | inr other ↦ elim (Bool-cases (before k j)) [
    | inl here ↦ rw (other, here) (h, (a, ws))
    | inr later ↦ rw (other, later) (a, set_value-All P k v es h ws)
  ]
]

IsKey-to_be : (n v : ℕ) → IsKey n (to_be n v)
IsKey-to_be n v = (length-to_be n v, to_be-IsBytes n v)

IsKey-append : (m n : ℕ) (j k : Bytes) → IsKey m j → IsKey n k → IsKey (m + n) (j ++ k)
IsKey-append m n j k (l, b) (l', b') =
    (omega (arith, length-append j k), All-append IsByte j k b b')

if-All {ℓ} :
    (P : Entry → Type ℓ) (b : Bool) (xs ys : List Entry)
    → (b ≡ true → All P xs)
    → All P ys
    → All P (if b then xs else ys)
if-All P true xs ys h a = h refl
if-All P false xs ys h a = a

cf_eq_sound : (a b : Cf) → cf_eq a b ≡ true → a ≡ b
cf_eq_sound a b h = ground arith

-- Every entry of every column family looks as it should.
abbrev pub IsValid : (db : Database) → db.Store → Type 0
IsValid db s = (c : Cf) → All (Fits c) (db.iterator_cf s c start)

-- A write that fits its column family.
abbrev FitsWrite : Write → Type 0
FitsWrite w = Fits w.cf (w.key, w.value)

after_writes-All :
    (c : Cf) (ws : List Write) (es : List Entry)
    → All FitsWrite ws
    → All (Fits c) es
    → All (Fits c) (after_writes c ws es)
unfolding after_writes
after_writes-All c [] es h a = a
after_writes-All c (w ∷ ws) es (h, hs) a = after_writes-All c ws _ hs (
    if-All (Fits c) (cf_eq w.cf c) _ es
      (λ same.
        set_value-All (Fits c) w.key w.value es
          (subst (λ d. Fits d (w.key, w.value)) (cf_eq_sound w.cf c same) h) a)
      a)

entity_write-All :
    (e : Option Bytes) (t i : ℕ) (hash : Bytes)
    → OptionKey e
    → IsKey 32 hash
    → All FitsWrite (entity_write e t i hash)
unfolding entity_write
entity_write-All none t i hash k h = tt
entity_write-All (some e) t i hash k (l, b) =
    ((IsKey-append 32 8 e _ k (IsKey-append 4 4 _ _ (IsKey-to_be 4 t) (IsKey-to_be 4 i)), l), tt)

module _ (db : Database) where
  module _ (laws : IsLawful db) where
    put-IsValid :
        (cf : Cf) (k v : Bytes) (s : db.Store)
        → Fits cf (k, v)
        → IsValid db s
        → IsValid db (db.put_cf s cf k v)
    put-IsValid cf k v s h valid c = rw (laws.after_put s cf c k v) (
        if-All (Fits c) (cf_eq cf c) _ _
          (λ same.
            set_value-All (Fits c) k v _ (subst (λ d. Fits d (k, v)) (cf_eq_sound cf c same) h)
              (valid c))
          (valid c))

    write-IsValid :
        (ws : List Write) (s : db.Store)
        → All FitsWrite ws
        → IsValid db s
        → IsValid db (db.write s ws)
    write-IsValid ws s h valid c =
        rw (laws.after_write s ws c) (after_writes-All c ws _ h (valid c))

    two_numbers : (a b x y : ℕ) → IsKey (a + b) (to_be a x ++ to_be b y)
    two_numbers a b x y = IsKey-append a b _ _ (IsKey-to_be a x) (IsKey-to_be b y)

    pub change-IsValid :
        (c : Change) (s : db.Store) → HasArrays c → IsValid db s → IsValid db (change db c s)
    unfolding change put_tick put_tx put_tx_for_tick put_tx_for_entity put_entity put_spectrum_entry
        put_asset put_computors put_contract_ipo put_custom_message put_entity_asset put_log_event
        put_tick_vote put_meta put_oracle put_epoch_stats batch_write batch_put_tx batch_put_tick
    change-IsValid (tick t bytes) s h v = put-IsValid cf_tick _ bytes s (IsKey-to_be 4 t) v
    change-IsValid (tx hash bytes) s h v = put-IsValid cf_tx hash bytes s h v
    change-IsValid (tx_for_tick t i hash) s h v =
        put-IsValid cf_tx_by_tick _ hash s (two_numbers 4 4 t i, h.0) v
    change-IsValid (tx_for_entity e t i hash) s (k, h) v =
        put-IsValid cf_tx_by_entity _ hash s (IsKey-append 32 8 e _ k (two_numbers 4 4 t i), h.0) v
    change-IsValid (entity identity bytes) s h v = put-IsValid cf_entity identity bytes s h v
    change-IsValid (spectrum_entry identity bytes) s h v =
        put-IsValid cf_spectrum identity bytes s h v
    change-IsValid (asset i bytes) s h v = put-IsValid cf_asset _ bytes s (IsKey-to_be 4 i) v
    change-IsValid (computors e bytes) s h v =
        put-IsValid cf_computors _ bytes s (IsKey-to_be 2 e) v
    change-IsValid (contract_ipo i bytes) s h v =
        put-IsValid cf_contract_ipo _ bytes s (IsKey-to_be 4 i) v
    change-IsValid (custom_message t i bytes) s h v =
        put-IsValid cf_custom_message _ bytes s (two_numbers 4 4 t i) v
    change-IsValid (entity_asset e i) s h v =
        put-IsValid cf_entity_asset _ [] s (IsKey-append 32 4 e _ h (IsKey-to_be 4 i)) v
    change-IsValid (log_event t i ty bytes) s h v =
        put-IsValid cf_log_event _ bytes s
          (IsKey-append 4 5 _ _ (IsKey-to_be 4 t) (two_numbers 4 1 i ty)) v
    change-IsValid (tick_vote t i bytes) s h v =
        put-IsValid cf_tick_vote _ bytes s (two_numbers 4 2 t i) v
    change-IsValid (meta key value) s h v = put-IsValid cf_meta key value s tt v
    change-IsValid (oracle t bytes) s h v = put-IsValid cf_oracle _ bytes s (IsKey-to_be 4 t) v
    change-IsValid (epoch_stats e bytes) s h v =
        put-IsValid cf_epoch_stats _ bytes s (IsKey-to_be 2 e) v
    change-IsValid (tx_batch hash bytes t i source destination) s (h, k, l) v =
        write-IsValid _ s
          (
            h,
            (
              (two_numbers 4 4 t i, h.0),
              All-append FitsWrite (entity_write source t i hash)
                  (entity_write destination t i hash) (entity_write-All source t i hash k h)
                  (entity_write-All destination t i hash l h),
            ),
          )
          v
    change-IsValid (tick_batch t e bytes) s h v =
        write-IsValid _ s (IsKey-to_be 4 t, (tt, (tt, tt))) v

    changes-IsValid :
        (cs : List Change) (s : db.Store)
        → All HasArrays cs
        → IsValid db s
        → IsValid db (changes db cs s)
    unfolding changes
    changes-IsValid [] s h v = v
    changes-IsValid (c ∷ cs) s (h, hs) v =
        changes-IsValid cs (change db c s) hs (change-IsValid c s h v)

    -- Through any writes to a new store, single ones and batches, in any order, the keys of each
    -- column family keep the length that the reads expect, and the hashes in the indexes theirs.
    pub changes-new-IsValid :
        (cs : List Change) → All HasArrays cs → IsValid db (changes db cs db.new)
    changes-new-IsValid cs h = changes-IsValid cs db.new h (λ c. rw (laws.new_empty c) tt)
