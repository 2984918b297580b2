-- ===== src/Processor/Indexer/Messages.antt =====
-- Sequences of custom messages: each one comes last among those of its tick.
use qonduit.Common.{
  ℕ, ◌+◌, ◌%◌, ◌<◌, ◌≤◌, ◌^◌, ◌≡◌, sym, ap, ◌∙◌, List, [], ◌∷◌, ◌++◌, map, false, ◌==◌, length,
  if◌then◌else◌, arith, Option, none, some, Bool-cases, inl, inr, append-nil, append_assoc,
  length-map, length-append, ==_iff,
}
use qonduit.Bytes.{Bytes, to_be}
use qonduit.Bytes.Endian.{length-to_be}
use qonduit.Storage.Keys.{KeysOf}
use qonduit.Storage.Keys.Rows.{rows, values}
use qonduit.Storage.Keys.Appends.{
  count_up, rows-set_next, rows-set_value_other, has_prefix-to_be, no_values-count_up,
  values-count_up, length-count_up,
}
use qonduit.Storage.Database.{cf_custom_message, start, Database, IsLawful}
use qonduit.Storage.Warm.{put_custom_message, tick_index_key}
use qonduit.Storage.Warm.Scans.{count_custom_messages_for_tick, get_custom_messages_for_tick}
use qonduit.Storage.Warm.Valid.{IsValid, change-IsValid}
use qonduit.Storage.Warm.Changes.{custom_message, change}
use qonduit.Storage.Warm.ByTick.{of_tick-with_prefix, values-rows}
use qonduit.Processor.Parsers.{External}
use qonduit.Processor.Indexer.{Indexer}
use qonduit.Processor.Indexer.Records.{
  tick_field, number_field, store_custom_message, index_custom_message,
}

module _ (db : Database) (lib : External) where
  -- The payload alone, if it is a message of the tick.
  unfoldable pub message_in : ℕ → Bytes → Option lib.Value → List Bytes
  message_in t payload none = []
  message_in t payload (some v) =
      if number_field db lib 32 tick_field v == t then payload ∷ [] else []

  abbrev pub message_of : ℕ → Bytes → List Bytes
  message_of t payload = message_in t payload (lib.value payload)

  -- The messages of a tick among the payloads.
  unfoldable pub messages_of : ℕ → List Bytes → List Bytes
  messages_of t [] = []
  messages_of t (payload ∷ payloads) = message_of t payload ++ messages_of t payloads

  unfoldable pub index_custom_messages : List Bytes → Indexer db → Indexer db
  index_custom_messages [] ix = ix
  index_custom_messages (payload ∷ payloads) ix =
      index_custom_messages payloads (index_custom_message db lib payload ix).0

  length-message_in :
      (t : ℕ) (payload : Bytes) (r : Option lib.Value) → length (message_in t payload r) ≤ 1
  unfolding message_in
  length-message_in t payload none = omega arith
  length-message_in t payload (some v) = ground arith

  number_field-lt : (name : Bytes) (v : lib.Value) → number_field db lib 32 name v < 2 ^ 32
  unfolding number_field
  number_field-lt name v = omega arith

  module _ (laws : IsLawful db) (t : ℕ) (small : t < 2 ^ 32) where
    -- The messages of the tick in a store are numbered from 0 on.
    pub record Holds (s : db.Store) (vs : List Bytes) : Type 0 where
      pub valid : IsValid db s
      pub numbered : rows (to_be 4 t) (db.iterator_cf s cf_custom_message start) ≡ count_up 0 vs

    keys : (s : db.Store) → IsValid db s → KeysOf 8 (db.iterator_cf s cf_custom_message start)
    unfolding KeysOf
    keys s valid = valid cf_custom_message

    count-Holds :
        (s : db.Store) (vs : List Bytes)
        → Holds s vs
        → count_custom_messages_for_tick db t s ≡ length vs
    unfolding count_custom_messages_for_tick rows
    count-Holds s vs h =
        rw (of_tick-with_prefix db laws s t 8 cf_custom_message (keys s h.valid))
          (sym (length-map _ _) ∙ ap length h.numbered ∙ length-count_up 0 vs)

    get-Holds :
        (s : db.Store) (vs : List Bytes) → Holds s vs → get_custom_messages_for_tick db t s ≡ vs
    unfolding get_custom_messages_for_tick
    get-Holds s vs h =
        rw (of_tick-with_prefix db laws s t 8 cf_custom_message (keys s h.valid))
          (values-rows db laws s t cf_custom_message ∙ ap values h.numbered ∙ values-count_up 0 vs)

    put-IsValid :
        (s : db.Store) (u i : ℕ) (v : Bytes)
        → IsValid db s
        → IsValid db (put_custom_message db u i v s)
    unfolding change
    put-IsValid s u i v h = change-IsValid db laws (custom_message u i v) s tt h

    put-Holds :
        (s : db.Store) (vs : List Bytes) (v : Bytes)
        → length vs < 2 ^ 32
        → Holds s vs
        → Holds (put_custom_message db t (length vs) v s) (vs ++ v ∷ [])
    unfolding put_custom_message
    put-Holds s vs v lt h = record {
      valid = put-IsValid s t (length vs) v h.valid;
      numbered =
          rw (laws.after_put s cf_custom_message cf_custom_message (tick_index_key t (length vs)) v)
            (rows-set_next (to_be 4 t) 4 v vs (db.iterator_cf s cf_custom_message start) lt
              (rw (length-to_be 4 t) (keys s h.valid)) (laws.sorted s cf_custom_message)
              h.numbered);
    }

    put_other-Holds :
        (s : db.Store) (vs : List Bytes) (u i : ℕ) (v : Bytes)
        → u < 2 ^ 32
        → (u == t) ≡ false
        → Holds s vs
        → Holds (put_custom_message db u i v s) vs
    unfolding put_custom_message
    put_other-Holds s vs u i v lt h held = record {
      valid = put-IsValid s u i v held.valid;
      numbered = rw (laws.after_put s cf_custom_message cf_custom_message (tick_index_key u i) v) (
          rows-set_value_other (to_be 4 t) (tick_index_key u i) v
            (db.iterator_cf s cf_custom_message start)
            (has_prefix-to_be 4 t u (to_be 4 i) small lt (ground arith))
          ∙ held.numbered);
    }

    no_rows :
        (s : db.Store)
        → IsValid db s
        → get_custom_messages_for_tick db t s ≡ []
        → rows (to_be 4 t) (db.iterator_cf s cf_custom_message start) ≡ count_up 0 []
    unfolding get_custom_messages_for_tick count_up
    no_rows s valid h =
        no_values-count_up (rows (to_be 4 t) (db.iterator_cf s cf_custom_message start)) (
          sym (values-rows db laws s t cf_custom_message)
          ∙ ap (map (λ e. e.1))
              (sym (of_tick-with_prefix db laws s t 8 cf_custom_message (keys s valid)))
          ∙ h)

    store-Holds :
        (payload : Bytes) (ix : Indexer db) (vs : List Bytes) (r : Option lib.Value)
        → length vs < 2 ^ 32
        → Holds ix.storage vs
        → Holds (store_custom_message db lib payload ix r).0.storage (vs ++ message_in t payload r)
    unfolding store_custom_message message_in
    store-Holds payload ix vs none lt h = rw (append-nil vs) h
    store-Holds payload ix vs (some v) lt h =
        elim (Bool-cases (number_field db lib 32 tick_field v == t)) [
          | inl here ↦
              let same : number_field db lib 32 tick_field v ≡ t = (==_iff _ _).0 here in
              let index : count_custom_messages_for_tick db t ix.storage % 2 ^ 32 ≡ length vs =
                omega (arith, count-Holds ix.storage vs h) in
              rw (here, same, index) (put-Holds ix.storage vs payload lt h)
          | inr other ↦
              rw (other, append-nil vs)
                (put_other-Holds ix.storage vs (number_field db lib 32 tick_field v) _ payload
                  (number_field-lt tick_field v) other h)
        ]

    index_all-Holds :
        (payloads : List Bytes) (ix : Indexer db) (vs : List Bytes)
        → length vs + length payloads ≤ 2 ^ 32
        → Holds ix.storage vs
        → Holds (index_custom_messages payloads ix).storage (vs ++ messages_of t payloads)
    unfolding index_custom_messages messages_of index_custom_message
    index_all-Holds [] ix vs le h = rw (append-nil vs) h
    index_all-Holds (payload ∷ payloads) ix vs le h =
        rw (sym (append_assoc vs (message_of t payload) (messages_of t payloads))) (
          index_all-Holds payloads (index_custom_message db lib payload ix).0
            (vs ++ message_of t payload)
            (omega (
              arith,
              length-append vs (message_of t payload),
              length-message_in t payload (lib.value payload),
            ))
            (store-Holds payload ix vs (lib.value payload) (omega arith) h))

    -- Custom messages indexed one after another, of this tick and of others in any order, are all
    -- listed under their tick, in the order of arrival, as long as they are at most 2 ^ 32 and the
    -- tick had none before. Payloads that do not parse are left out.
    pub get_custom_messages_for_tick-index_custom_messages :
        (payloads : List Bytes) (ix : Indexer db)
        → length payloads ≤ 2 ^ 32
        → IsValid db ix.storage
        → get_custom_messages_for_tick db t ix.storage ≡ []
        → get_custom_messages_for_tick db t (index_custom_messages payloads ix).storage
          ≡ messages_of t payloads
    get_custom_messages_for_tick-index_custom_messages payloads ix le valid h =
        get-Holds _ (messages_of t payloads) (
          index_all-Holds payloads ix [] (omega arith)
            (record { valid = valid; numbered = no_rows ix.storage valid h }))
