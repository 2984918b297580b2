-- ===== src/Storage/Hot.antt =====
-- crates/storage/src/hot.rs: the in-memory cache. A hash map is an association list whose order has
-- no meaning; of several oldest entries the first one goes. The clock is the argument `now`, and
-- the locks, which every operation holds from its start to its end, are left out.
pub mod Maps
pub mod Eviction
pub mod Bounds
use qonduit.Common.{
  ℕ, suc, ◌+◌, ◌-◌, List, [], ◌∷◌, Bool, true, false, not, ◌&&◌, ◌||◌, ◌==◌, ltb, leb, length,
  Option, none, some, if◌then◌else◌,
}
use qonduit.Bytes.{Bytes}
use qonduit.Core.Identity.{bytes_eq}

-- `CachedTick` and `CachedEntity`.
pub record Cached : Type 0 where
  pub contents : Bytes
  pub cached_at : ℕ

-- The maps are written once, for both types of keys.
module _ {K : Type 0} (key_eq : K → K → Bool) where
  unfoldable pub lookup : K → List (K × Cached) → Option Cached
  lookup k [] = none
  lookup k ((j, e) ∷ m) = if key_eq j k then some e else lookup k m

  -- `contains_key`
  unfoldable pub contains : K → List (K × Cached) → Bool
  contains k [] = false
  contains k ((j, e) ∷ m) = key_eq j k || contains k m

  unfoldable pub remove : K → List (K × Cached) → List (K × Cached)
  remove k [] = []
  remove k ((j, e) ∷ m) = if key_eq j k then m else (j, e) ∷ remove k m

  unfoldable pub insert : K → Cached → List (K × Cached) → List (K × Cached)
  insert k e [] = (k, e) ∷ []
  insert k e ((j, f) ∷ m) = if key_eq j k then (j, e) ∷ m else (j, f) ∷ insert k e m

-- The entry with the smallest time: `iter().min_by_key(…)`.
unfoldable pub oldest {ℓ} : {K : Type ℓ} → List (K × Cached) → Option (K × Cached)
oldest [] = none
oldest ((k, e) ∷ m) = elim (oldest m) [
  | none ↦ some (k, e)
  | some (j, f) ↦ if leb e.cached_at f.cached_at then some (k, e) else some (j, f)
]

module _ {K : Type 0} (key_eq : K → K → Bool) where
  -- Evict the oldest entry if the map is full and the key is new.
  unfoldable pub make_room : ℕ → K → List (K × Cached) → List (K × Cached)
  make_room limit k m =
      if leb limit (length m) && not (contains key_eq k m)
      then elim (oldest m) [ none ↦ m | some (j, e) ↦ remove key_eq j m ]
      else m

  unfoldable pub put : ℕ → ℕ → K → Bytes → List (K × Cached) → List (K × Cached)
  put limit now k bytes m =
      insert key_eq k (record { contents = bytes; cached_at = now }) (make_room limit k m)

  unfoldable pub get : K → List (K × Cached) → Option Bytes
  get k m = elim (lookup key_eq k m) [ none ↦ none | some e ↦ some e.contents ]

-- Keep what is younger than `max_age`; `duration_since` saturates at zero.
unfoldable pub retain_fresh {ℓ} : {K : Type ℓ} → ℕ → ℕ → List (K × Cached) → List (K × Cached)
retain_fresh now max_age [] = []
retain_fresh now max_age ((k, e) ∷ m) =
    let rest = retain_fresh now max_age m in
    if ltb (now - e.cached_at) max_age then (k, e) ∷ rest else rest

abbrev pub nat_eq : ℕ → ℕ → Bool
nat_eq a b = a == b

pub record HotCache : Type 0 where
  pub current_tick : Option ℕ
  pub current_epoch : Option ℕ
  pub tick_cache : List (ℕ × Cached)
  pub entity_cache : List (Bytes × Cached)
  pub computors_cache : Option (ℕ × Bytes)
  pub max_ticks : ℕ
  pub max_entities : ℕ

unfoldable pub new : ℕ → ℕ → HotCache
new max_ticks max_entities = record {
  current_tick = none;
  current_epoch = none;
  tick_cache = [];
  entity_cache = [];
  computors_cache = none;
  max_ticks = max_ticks;
  max_entities = max_entities;
}

unfoldable pub get_current_tick : HotCache → Option ℕ
get_current_tick c = c.current_tick

unfoldable pub set_current_tick : ℕ → HotCache → HotCache
set_current_tick tick c = record c { current_tick = some tick }

unfoldable pub get_current_epoch : HotCache → Option ℕ
get_current_epoch c = c.current_epoch

unfoldable pub set_current_epoch : ℕ → HotCache → HotCache
set_current_epoch epoch c = record c { current_epoch = some epoch }

unfoldable pub get_tick : ℕ → HotCache → Option Bytes
get_tick tick c = get nat_eq tick c.tick_cache

unfoldable pub put_tick : ℕ → ℕ → Bytes → HotCache → HotCache
put_tick now tick bytes c = record c {
  tick_cache = put nat_eq c.max_ticks now tick bytes c.tick_cache;
}

unfoldable pub get_entity : Bytes → HotCache → Option Bytes
get_entity identity c = get bytes_eq identity c.entity_cache

unfoldable pub put_entity : ℕ → Bytes → Bytes → HotCache → HotCache
put_entity now identity bytes c = record c {
  entity_cache = put bytes_eq c.max_entities now identity bytes c.entity_cache;
}

unfoldable pub get_computors : HotCache → Option (ℕ × Bytes)
get_computors c = c.computors_cache

unfoldable pub put_computors : ℕ → Bytes → HotCache → HotCache
put_computors epoch bytes c = record c { computors_cache = some (epoch, bytes) }

unfoldable pub evict_stale : ℕ → ℕ → HotCache → HotCache
evict_stale now max_age c = record c {
  tick_cache = retain_fresh now max_age c.tick_cache;
  entity_cache = retain_fresh now max_age c.entity_cache;
}
