-- ===== src/Storage/Hot/Bounds.antt =====
-- The caches keep their size limits and their keys distinct through any sequence of operations.
use qonduit.Common.{
  ℕ, suc, ◌+◌, ◌≤◌, ◌≡◌, ◌↔◌, refl, max, List, [], ◌∷◌, Bool, true, false, length, some,
  if◌then◌else◌, arith, ap, Bool-cases, inl, inr, ==_iff,
}
use qonduit.Bytes.{Bytes}
use qonduit.Core.Identity.{bytes_eq}
use qonduit.Core.Identity.Digits.{bytes_eq_iff}
use qonduit.Storage.Hot.{
  Cached, HotCache, lookup, contains, remove, insert, oldest, make_room, put, retain_fresh, nat_eq,
  new, set_current_tick, set_current_epoch, put_tick, put_entity, put_computors, evict_stale,
}
use qonduit.Storage.Hot.Maps.{distinct}
use qonduit.Storage.Hot.Eviction.{put-distinct, oldest-cases}

module _ {K : Type 0} (key_eq : K → K → Bool)
    (eq_iff : (a b : K) → (key_eq a b ≡ true) ↔ (a ≡ b)) where
  length-insert :
      (k : K) (e : Cached) (m : List (K × Cached))
      → length (insert key_eq k e m) ≡ (if contains key_eq k m then length m else suc (length m))
  unfolding insert contains
  length-insert k e [] = refl
  length-insert k e ((j, f) ∷ m) = ground (arith, length-insert k e m)

  length-remove_le : (k : K) (m : List (K × Cached)) → length (remove key_eq k m) ≤ length m
  unfolding remove
  length-remove_le k [] = omega arith
  length-remove_le k ((j, f) ∷ m) = ground (arith, length-remove_le k m)

  length-remove :
      (k : K) (m : List (K × Cached)) (e : Cached)
      → lookup key_eq k m ≡ some e
      → length (remove key_eq k m) + 1 ≡ length m
  unfolding remove lookup
  length-remove k [] e h = absurd (cc)
  length-remove k ((j, f) ∷ m) e h = ground (arith, length-remove k m e)

  contains-remove_other :
      (j k : K) (m : List (K × Cached))
      → contains key_eq k m ≡ false
      → contains key_eq k (remove key_eq j m) ≡ false
  unfolding contains remove
  contains-remove_other j k [] h = refl
  contains-remove_other j k ((i, f) ∷ m) h = ground (arith, contains-remove_other j k m)

  -- Room for a new key is made if the map is full.
  length-make_room :
      (limit : ℕ) (k : K) (m : List (K × Cached))
      → distinct (contains key_eq) m ≡ true
      → length m ≤ max limit 1
      → contains key_eq k m ≡ false
      → length (make_room key_eq limit k m) + 1 ≤ max limit 1
  unfolding make_room oldest
  length-make_room limit k m d h new_key = elim (oldest-cases key_eq eq_iff m d) [
    | inl empty ↦ ground (arith, empty, ap length empty)
    | inr (j, e, found, seen, low) ↦ ground (arith, found, length-remove j m e seen)
  ]

  make_room_known :
      (limit : ℕ) (k : K) (m : List (K × Cached))
      → contains key_eq k m ≡ true
      → make_room key_eq limit k m ≡ m
  unfolding make_room
  make_room_known limit k m h = ground arith

  pub length-put :
      (limit now : ℕ) (k : K) (bytes : Bytes) (m : List (K × Cached))
      → distinct (contains key_eq) m ≡ true
      → length m ≤ max limit 1
      → length (put key_eq limit now k bytes m) ≤ max limit 1
  unfolding put
  length-put limit now k bytes m d h = elim (Bool-cases (contains key_eq k m)) [
    | inl known ↦ rw (make_room_known limit k m known, length-insert k _ m, known) h
    | inr new_key ↦
        rw (length-insert k _ (make_room key_eq limit k m))
          (ground (arith, length-make_room limit k m d h new_key))
  ]

-- The operations of the cache that change it, each with the time at which it runs.
pub data Operation : Type 0 where
  set_tick : ℕ → Operation
  set_epoch : ℕ → Operation
  store_tick : ℕ → ℕ → Bytes → Operation
  store_entity : ℕ → Bytes → Bytes → Operation
  store_computors : ℕ → Bytes → Operation
  evict : ℕ → ℕ → Operation

unfoldable pub apply : Operation → HotCache → HotCache
apply (set_tick tick) c = set_current_tick tick c
apply (set_epoch epoch) c = set_current_epoch epoch c
apply (store_tick now tick bytes) c = put_tick now tick bytes c
apply (store_entity now identity bytes) c = put_entity now identity bytes c
apply (store_computors epoch bytes) c = put_computors epoch bytes c
apply (evict now max_age) c = evict_stale now max_age c

unfoldable pub run : List Operation → HotCache → HotCache
run [] c = c
run (o ∷ os) c = run os (apply o c)

-- The sizes are within the limits (a limit of 0 counts as 1), and no key occurs twice.
pub record IsValid (max_ticks max_entities : ℕ) (c : HotCache) : Type 0 where
  pub tick_limit : c.max_ticks ≡ max_ticks
  pub entity_limit : c.max_entities ≡ max_entities
  pub ticks_bounded : length c.tick_cache ≤ max max_ticks 1
  pub entities_bounded : length c.entity_cache ≤ max max_entities 1
  pub ticks_distinct : distinct (contains nat_eq) c.tick_cache ≡ true
  pub entities_distinct : distinct (contains bytes_eq) c.entity_cache ≡ true

module _ {K : Type 0} (key_eq : K → K → Bool) where
  length-retain_fresh :
      (now max_age : ℕ) (m : List (K × Cached)) → length (retain_fresh now max_age m) ≤ length m
  unfolding retain_fresh
  length-retain_fresh now max_age [] = omega arith
  length-retain_fresh now max_age ((k, e) ∷ m) = ground (arith, length-retain_fresh now max_age m)

  contains-retain_fresh :
      (now max_age : ℕ) (k : K) (m : List (K × Cached))
      → contains key_eq k m ≡ false
      → contains key_eq k (retain_fresh now max_age m) ≡ false
  unfolding retain_fresh contains
  contains-retain_fresh now max_age k [] h = refl
  contains-retain_fresh now max_age k ((j, e) ∷ m) h =
      ground (arith, contains-retain_fresh now max_age k m)

  retain_fresh-distinct :
      (now max_age : ℕ) (m : List (K × Cached))
      → distinct (contains key_eq) m ≡ true
      → distinct (contains key_eq) (retain_fresh now max_age m) ≡ true
  unfolding retain_fresh distinct
  retain_fresh-distinct now max_age [] h = refl
  retain_fresh-distinct now max_age ((j, e) ∷ m) h =
      ground (arith, contains-retain_fresh now max_age j m, retain_fresh-distinct now max_age m)

module _ (mt me : ℕ) where
  apply-IsValid : (o : Operation) (c : HotCache) → IsValid mt me c → IsValid mt me (apply o c)
  unfolding apply set_current_tick set_current_epoch put_tick put_entity put_computors evict_stale
  apply-IsValid (set_tick tick) c v = ground arith
  apply-IsValid (set_epoch epoch) c v = ground arith
  apply-IsValid (store_tick now tick bytes) c v = record {
    tick_limit = v.tick_limit;
    entity_limit = v.entity_limit;
    ticks_bounded =
        rw v.tick_limit (
          length-put nat_eq ==_iff mt now tick bytes c.tick_cache v.ticks_distinct v.ticks_bounded);
    entities_bounded = v.entities_bounded;
    ticks_distinct =
        put-distinct nat_eq ==_iff c.max_ticks now tick bytes c.tick_cache v.ticks_distinct;
    entities_distinct = v.entities_distinct;
  }
  apply-IsValid (store_entity now identity bytes) c v = record {
    tick_limit = v.tick_limit;
    entity_limit = v.entity_limit;
    ticks_bounded = v.ticks_bounded;
    entities_bounded = rw v.entity_limit (
        length-put bytes_eq bytes_eq_iff me now identity bytes c.entity_cache v.entities_distinct
          v.entities_bounded);
    ticks_distinct = v.ticks_distinct;
    entities_distinct =
        put-distinct bytes_eq bytes_eq_iff c.max_entities now identity bytes c.entity_cache
          v.entities_distinct;
  }
  apply-IsValid (store_computors epoch bytes) c v = ground arith
  apply-IsValid (evict now max_age) c v = record {
    tick_limit = v.tick_limit;
    entity_limit = v.entity_limit;
    ticks_bounded =
        omega (arith, v.ticks_bounded, length-retain_fresh nat_eq now max_age c.tick_cache);
    entities_bounded =
        omega (arith, v.entities_bounded, length-retain_fresh bytes_eq now max_age c.entity_cache);
    ticks_distinct = retain_fresh-distinct nat_eq now max_age c.tick_cache v.ticks_distinct;
    entities_distinct =
        retain_fresh-distinct bytes_eq now max_age c.entity_cache v.entities_distinct;
  }

  run_from : (os : List Operation) (c : HotCache) → IsValid mt me c → IsValid mt me (run os c)
  unfolding run
  run_from [] c v = v
  run_from (o ∷ os) c v = run_from os (apply o c) (apply-IsValid o c v)

-- Whatever operations run on a new cache, in whatever order, the tick and entity caches never hold
-- more entries than their limits, or than one entry if the limit is 0; the limits stay as set, and
-- the lists that stand for the maps hold no key twice.
pub run-IsValid :
    (max_ticks max_entities : ℕ) (os : List Operation)
    → IsValid max_ticks max_entities (run os (new max_ticks max_entities))
unfolding new distinct
run-IsValid mt me os = run_from mt me os (new mt me) (ground arith)
