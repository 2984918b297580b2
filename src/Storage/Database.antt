-- ===== src/Storage/Database.antt =====
-- RocksDB as the storage code uses it: column families of entries in bytewise order of their keys.
-- The operations are parameters, and the laws are what RocksDB documents of them. That an operation
-- can fail with an I/O error, which the code passes on to its caller, is left out.
pub mod ListStore
use qonduit.Common.{ℕ, ◌≡◌, List, [], ◌∷◌, reverse, Bool, true, ◌==◌, Option, if◌then◌else◌}
use qonduit.Bytes.{Bytes}
use qonduit.Storage.Keys.{Entry, ascending, value_at, set_value, from_key, up_to_key}

-- The column families of crates/storage/src/warm.rs.
pub data Cf : Type 0 where
  cf_tick : Cf
  cf_tx : Cf
  cf_tx_by_tick : Cf
  cf_tx_by_entity : Cf
  cf_entity : Cf
  cf_spectrum : Cf
  cf_asset : Cf
  cf_computors : Cf
  cf_contract_ipo : Cf
  cf_custom_message : Cf
  cf_entity_asset : Cf
  cf_log_event : Cf
  cf_tick_vote : Cf
  cf_meta : Cf
  cf_oracle : Cf
  cf_epoch_stats : Cf

abbrev pub cf_number : Cf → ℕ
cf_number cf_tick = 0
cf_number cf_tx = 1
cf_number cf_tx_by_tick = 2
cf_number cf_tx_by_entity = 3
cf_number cf_entity = 4
cf_number cf_spectrum = 5
cf_number cf_asset = 6
cf_number cf_computors = 7
cf_number cf_contract_ipo = 8
cf_number cf_custom_message = 9
cf_number cf_entity_asset = 10
cf_number cf_log_event = 11
cf_number cf_tick_vote = 12
cf_number cf_meta = 13
cf_number cf_oracle = 14
cf_number cf_epoch_stats = 15

abbrev pub cf_eq : Cf → Cf → Bool
cf_eq a b = cf_number a == cf_number b

-- A write of a batch.
pub record Write : Type 0 where
  pub cf : Cf
  pub key : Bytes
  pub value : Bytes

-- `IteratorMode`
pub data Mode : Type 0 where
  start : Mode
  end : Mode
  forward : Bytes → Mode
  backward : Bytes → Mode

-- The entries of a column family after the writes of a batch, in their order.
unfoldable pub after_writes : Cf → List Write → List Entry → List Entry
after_writes c [] es = es
after_writes c (w ∷ ws) es =
    after_writes c ws (if cf_eq w.cf c then set_value w.key w.value es else es)

pub record Database : Type 1 where
  pub Store : Type 0
  -- a new database
  pub new : Store
  -- `put_cf`, `get_cf`, `write` of a batch, and the items of `iterator_cf`
  pub put_cf : Store → Cf → Bytes → Bytes → Store
  pub get_cf : Store → Cf → Bytes → Option Bytes
  pub write : Store → List Write → Store
  pub iterator_cf : Store → Cf → Mode → List Entry

-- The documented behaviour: an iterator goes through the entries in bytewise order, from an end
-- or from a key on, `get_cf` finds what it goes through, and a write changes one column family.
pub record IsLawful (db : Database) : Type 0 where
  pub new_empty : (c : Cf) → db.iterator_cf db.new c start ≡ []
  pub sorted : (s : db.Store) (c : Cf) → ascending (db.iterator_cf s c start) ≡ true
  pub get_iterator :
      (s : db.Store) (c : Cf) (k : Bytes) → db.get_cf s c k ≡ value_at k (db.iterator_cf s c start)
  pub from_end :
      (s : db.Store) (c : Cf) → db.iterator_cf s c end ≡ reverse (db.iterator_cf s c start)
  pub from_forward :
      (s : db.Store) (c : Cf) (k : Bytes)
      → db.iterator_cf s c (forward k) ≡ from_key k (db.iterator_cf s c start)
  pub from_backward :
      (s : db.Store) (c : Cf) (k : Bytes)
      → db.iterator_cf s c (backward k) ≡ reverse (up_to_key k (db.iterator_cf s c start))
  pub after_put :
      (s : db.Store) (cf c : Cf) (k v : Bytes)
      → db.iterator_cf (db.put_cf s cf k v) c start ≡ (
          if cf_eq cf c then set_value k v (db.iterator_cf s c start) else db.iterator_cf s c start)
  pub after_write :
      (s : db.Store) (ws : List Write) (c : Cf)
      → db.iterator_cf (db.write s ws) c start ≡ after_writes c ws (db.iterator_cf s c start)
