-- ===== src/Query/Rest/Search.antt =====
-- `search` of crates/query/src/rest.rs: by tick, by hash, by the beginning of an identity and by
-- identity, in this order.
use qonduit.Common.{
  ℕ, List, [], ◌∷◌, ◌&&◌, ◌==◌, leb, ltb, length, Option, none, some, if◌then◌else◌,
}
use qonduit.Bytes.{Bytes}
use qonduit.Core.Identity.{is_ascii_uppercase, decode_base26, encode_base26}
use qonduit.Storage.Database.{Database}
use qonduit.Storage.Keys.{has_prefix}
use qonduit.Storage.Warm
use qonduit.Storage.Warm.Scans
use qonduit.Query.Values.{External}
use qonduit.Query.Texts.{all_chars, is_ascii_digit, is_ascii_hexdigit, parse_u32, trim}
use qonduit.Query.Rest.{Response, bad_request, json, json_or_404}

module _ (db : Database) (lib : External) where
  open db use {Store}
  open lib use {Value, from_slice}

  -- The stored entity, or its identity alone.
  abbrev entity_or : Bytes → Option Value → Value
  entity_or identity (some v) = v
  entity_or identity none = lib.object (("identity", lib.text identity) ∷ [])

  abbrev parsed : Option Bytes → Option Value
  parsed none = none
  parsed (some bytes) = from_slice bytes

  unfoldable pub entities_with_prefix : Bytes → List Bytes → Store → List Value
  entities_with_prefix prefix [] s = []
  entities_with_prefix prefix (key ∷ keys) s =
      let identity = encode_base26 lib.k12 key in
      let rest = entities_with_prefix prefix keys s in
      if has_prefix prefix identity
      then entity_or identity (parsed (Warm.get_entity db key s)) ∷ rest
      else rest

  unfoldable pub search_entities_by_prefix : Bytes → Store → List Value
  search_entities_by_prefix prefix s =
      entities_with_prefix prefix (Scans.get_all_entity_keys db 10000 s) s

  abbrev pub found : List Value → Value
  found vs = lib.object (("type", lib.literal "entity") ∷ ("results", lib.array vs) ∷ [])

  abbrev pub no_results : Response Value
  no_results = json (lib.object (("results", lib.array []) ∷ []))

  abbrev found_entity : Option Value → Response Value
  found_entity none = no_results
  found_entity (some v) = json (found (v ∷ []))

  abbrev entity_of : Store → Option Bytes → Option Value
  entity_of s none = none
  entity_of s (some key) = parsed (Warm.get_entity db key s)

  unfoldable pub search_identity : Bytes → Store → Response Value
  search_identity q s =
      if length q == 60 && all_chars is_ascii_uppercase q
      then found_entity (entity_of s (decode_base26 lib.k12 q))
      else no_results

  abbrev found_or : List Value → Response Value → Response Value
  found_or [] otherwise = otherwise
  found_or (v ∷ vs) otherwise = json (found (v ∷ vs))

  unfoldable pub search_prefix : Bytes → Store → Response Value
  search_prefix q s =
      if leb 4 (length q) && ltb (length q) 60 && all_chars is_ascii_uppercase q
      then found_or (search_entities_by_prefix q s) (search_identity q s)
      else search_identity q s

  abbrev by_hash : Bytes → Store → Option Bytes → Response Value
  by_hash q s none = search_prefix q s
  by_hash q s (some bytes) =
      if length bytes == 32 then json_or_404 (Warm.get_tx db bytes s) else search_prefix q s

  unfoldable pub search_hash : Bytes → Store → Response Value
  search_hash q s =
      by_hash q s
        (if length q == 64 && all_chars is_ascii_hexdigit q then lib.hex_decode q else none)

  abbrev by_tick : Bytes → Store → Option ℕ → Response Value
  by_tick q s none = search_hash q s
  by_tick q s (some tick) = json_or_404 (Warm.get_tick db tick s)

  unfoldable pub search_trimmed : Bytes → Store → Response Value
  search_trimmed [] s = bad_request "Empty search query"
  search_trimmed (c ∷ cs) s =
      by_tick (c ∷ cs) s (if all_chars is_ascii_digit (c ∷ cs) then parse_u32 (c ∷ cs) else none)

  unfoldable pub search : Bytes → Store → Response Value
  search query s = search_trimmed (trim query) s
