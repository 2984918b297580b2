-- ===== src/Query/Agreement.antt =====
-- The REST and the JSON-RPC interface answer alike.
use Prim.Native.String.{String}
use qonduit.Common.{
  ℕ, ◌≡◌, refl, sym, ◌∙◌, List, [], ◌∷◌, ◌++◌, append_assoc, append-nil, false, if◌then◌else◌, ◌==◌,
  length, Option, none, some, Option-cases, Bool-cases, inl, inr,
}
use qonduit.Bytes
use qonduit.Bytes.{Bytes, Result, ok, err, panic}
use qonduit.Core.Epochs.{EpochRange}
use qonduit.Core.Identity.{bytes_eq, decode_base26}
use qonduit.Storage.Database.{Database}
use qonduit.Storage.Warm
use qonduit.Storage.Warm.Scans
use qonduit.Storage.Warm.Scans.{copy_hashes}
use qonduit.Storage.Keys.{Entry}
use qonduit.Query.Values.{External}
use qonduit.Query.Texts.{codes, parse_u32}
use qonduit.Query.Rest.{
  Response, raw, not_found, bad_request, json, json_or_404, or_bad_request, get_tick,
  get_tick_transactions, get_transaction, get_entity, get_spectrum_entry, get_owned_assets,
  get_possessed_assets, transactions_of, transactions_response, push_stored, push_parsed, assets_at,
  held_by, assets_of_entity,
}
use qonduit.Query.Rpc.Params.{
  RpcError, RpcResult, value, fails, panics, json_failed, extract_string_param, extract_u32_param,
  ◌>>=◌,
}
use qonduit.Query.Rpc.Lookups.{
  parsed, stored_or_null, found_hashes, identity_param, tick_transactions, transaction, tick_data,
  push_asset, push_assets, filter_field, indexed_or_scanned, entity_assets,
}
use qonduit.Query.Rpc.Methods.{stored_entity, spectrum_entry, dispatch_method}

module _ (lib : External) where
  -- A result of a method and a response are the same answer: the same value, stored bytes that
  -- parse to the value, bytes that do not parse, null for what is not there, or an error of both.
  pub data Agrees : RpcResult lib.Value → Response lib.Value → Type 0 where
    same : {v : lib.Value} → Agrees (value v) (json v)
    stored :
        {v : lib.Value} {bytes : Bytes}
        → lib.from_slice bytes ≡ some v
        → Agrees (value v) (raw bytes)
    unreadable :
        {bytes : Bytes}
        → lib.from_slice bytes ≡ none
        → Agrees (fails (json_failed bytes)) (raw bytes)
    absent : Agrees (value lib.null) not_found
    refused : {e : RpcError} {msg : String} → Agrees (fails e) (bad_request msg)

  -- The same for handlers that may panic.
  pub data AgreesOrPanics : RpcResult lib.Value → Result (Response lib.Value) → Type 0 where
    both : {r : RpcResult lib.Value} {a : Response lib.Value} → Agrees r a → AgreesOrPanics r (ok a)
    both_panic : AgreesOrPanics panics panic

module _ (db : Database) (lib : External) where
  stored_or_null-Agrees : (o : Option Bytes) → Agrees lib (stored_or_null db lib o) (json_or_404 o)
  unfolding stored_or_null json_or_404 parsed
  stored_or_null-Agrees none = absent
  stored_or_null-Agrees (some bytes) = elim (Option-cases (lib.from_slice bytes)) [
    | inl bad ↦ rw bad (unreadable bad)
    | inr (v, good) ↦ rw good (stored good)
  ]

  push_asset-push_parsed :
      (o : Option lib.Value) (assets rest : List lib.Value)
      → elim o [ none ↦ assets | some v ↦ assets ++ (v ∷ []) ] ++ rest
        ≡ assets ++ push_parsed db lib o rest
  unfolding push_parsed
  push_asset-push_parsed none assets rest = refl
  push_asset-push_parsed (some v) assets rest = append_assoc assets (v ∷ []) rest

  push_asset-push_stored :
      (o : Option Bytes) (assets rest : List lib.Value)
      → push_asset db lib assets o ++ rest ≡ assets ++ push_stored db lib o rest
  unfolding push_stored
  push_asset-push_stored none assets rest = refl
  push_asset-push_stored (some bytes) assets rest =
      push_asset-push_parsed (lib.from_slice bytes) assets rest

  push_assets-assets_at :
      (is : List ℕ) (assets : List lib.Value) (s : db.Store)
      → push_assets db lib is assets s ≡ assets ++ assets_at db lib is s
  unfolding push_assets assets_at
  push_assets-assets_at [] assets s = sym (append-nil assets)
  push_assets-assets_at (i ∷ is) assets s =
      push_assets-assets_at is (push_asset db lib assets (Warm.get_asset db i s)) s
      ∙ push_asset-push_stored (Warm.get_asset db i s) assets (assets_at db lib is s)

  filter-step :
      (o : Option lib.Value) (entity_json v : lib.Value) (xs ys : List lib.Value)
      → xs ≡ ys
      → elim o [ none ↦ xs | some w ↦ if lib.value_eq w entity_json then v ∷ xs else xs ]
        ≡ (if elim o [ none ↦ false | some w ↦ lib.value_eq w entity_json ] then v ∷ ys else ys)
  filter-step none e v xs ys e' = e'
  filter-step (some w) e v xs ys e' = rw e' refl

  filter_field-held_by :
      (field : String) (entity_json : lib.Value) (vs : List lib.Value)
      → filter_field db lib field entity_json vs ≡ held_by db lib field entity_json vs
  unfolding filter_field held_by
  filter_field-held_by field e [] = refl
  filter_field-held_by field e (v ∷ vs) =
      filter-step (lib.get v field) e v _ _ (filter_field-held_by field e vs)

  indexed_or_scanned-assets_of_entity :
      (field : String) (key : Bytes) (is : List ℕ) (s : db.Store)
      → indexed_or_scanned db lib field key is s ≡ assets_of_entity db lib field key s is
  unfolding indexed_or_scanned assets_of_entity
  indexed_or_scanned-assets_of_entity field key [] s = filter_field-held_by field _ _
  indexed_or_scanned-assets_of_entity field key (i ∷ is) s = push_assets-assets_at (i ∷ is) [] s

  array-Agrees :
      (vs ws : List lib.Value) → vs ≡ ws → Agrees lib (value (lib.array vs)) (json (lib.array ws))
  array-Agrees vs ws e = rw e same

  module _ (version : lib.Value) (ranges : List EpochRange) (params : Option lib.Value)
      (s : db.Store) where
    -- The answer of the RPC interface to a method.
    abbrev pub answer : String → RpcResult lib.Value
    answer method = dispatch_method db lib version ranges (codes method) params s

    -- The methods that take an identity are dispatched as named.
    identity_answers :
        (answer "getEntity" ≡ stored_entity db lib params s)
        × (answer "getSpectrum" ≡ spectrum_entry db lib params s)
        × (answer "getOwnedAssets" ≡ entity_assets db lib "owning_entity" params s)
        × (answer "getAssetsByOwner" ≡ entity_assets db lib "owning_entity" params s)
        × (answer "getPossessedAssets" ≡ entity_assets db lib "possessing_entity" params s)
    unfolding dispatch_method bytes_eq
    identity_answers = (refl, refl, refl, refl, refl)

    -- For a text that is the first parameter of a method and the part of a path, "getEntity" answers
    -- like the handler of entities, "getSpectrum" like that of spectrum entries, "getOwnedAssets"
    -- and "getAssetsByOwner" like that of owned assets and "getPossessedAssets" like that of
    -- possessed assets, errors included.
    pub identity_methods-Agrees :
        (id : Bytes)
        → extract_string_param lib params 0 ≡ value id
        → Agrees lib (answer "getEntity") (get_entity db lib id s)
          × Agrees lib (answer "getSpectrum") (get_spectrum_entry db lib id s)
          × Agrees lib (answer "getOwnedAssets") (get_owned_assets db lib id s)
          × Agrees lib (answer "getAssetsByOwner") (get_owned_assets db lib id s)
          × Agrees lib (answer "getPossessedAssets") (get_possessed_assets db lib id s)
    unfolding stored_entity get_entity spectrum_entry get_spectrum_entry entity_assets
        get_owned_assets get_possessed_assets identity_param or_bad_request
    identity_methods-Agrees id e =
        let (entity, spectrum, owned, owner, possessed) = identity_answers in
        rw (entity, spectrum, owned, owner, possessed)
          (elim (Option-cases (decode_base26 lib.k12 id)) [
            | inl bad ↦ rw (e, bad) (refused, refused, refused, refused, refused)
            | inr (key, good) ↦
                let listed = λ (field : String). array-Agrees _ _ (
                  indexed_or_scanned-assets_of_entity field key
                    (Scans.get_assets_for_entity db key s) s) in
                rw (e, good)
                  (
                    stored_or_null-Agrees (Warm.get_entity db key s),
                    stored_or_null-Agrees (Warm.get_spectrum_entry db key s),
                    listed "owning_entity",
                    listed "owning_entity",
                    listed "possessing_entity",
                  )
          ])

  -- The loop over hashes ends with hashes or a panic.
  data HasNoError : Result (List Bytes) → Type 0 where
    listed : {hashes : List Bytes} → HasNoError (ok hashes)
    fault : HasNoError panic

  push-HasNoError :
      (v : Bytes) (r : Result (List Bytes))
      → HasNoError r
      → HasNoError (Bytes.◌>>=◌ r (λ hs. ok (v ∷ hs)))
  push-HasNoError v (ok hs) h = listed
  push-HasNoError v (err e) h = elim h [ ]
  push-HasNoError v panic h = fault

  copy_hashes-HasNoError : (es : List Entry) → HasNoError (copy_hashes es)
  unfolding copy_hashes
  copy_hashes-HasNoError [] = listed
  copy_hashes-HasNoError ((k, v) ∷ es) = elim (Bool-cases (length v == 32)) [
    | inl t ↦ rw t (push-HasNoError v (copy_hashes es) (copy_hashes-HasNoError es))
    | inr f ↦ rw f fault
  ]

  transactions-Agrees :
      (s : db.Store) (r : Result (List Bytes))
      → HasNoError r
      → AgreesOrPanics lib
          (found_hashes db lib r >>= λ hashes. value (lib.array (transactions_of db lib hashes s)))
          (transactions_response db lib s r)
  transactions-Agrees s (ok hashes) h = both same
  transactions-Agrees s (err e) h = elim h [ ]
  transactions-Agrees s panic h = both_panic

  tick_transactions-found :
      (s : db.Store) (t : ℕ)
      → AgreesOrPanics lib
          (found_hashes db lib (Scans.get_tx_hashes_for_tick db t s) >>= λ hashes.
            value (lib.array (transactions_of db lib hashes s)))
          (transactions_response db lib s (Scans.get_tx_hashes_for_tick db t s))
  unfolding Scans.get_tx_hashes_for_tick
  tick_transactions-found s t = transactions-Agrees s _ (copy_hashes-HasNoError _)

  -- For a tick that is the first parameter and that the path names, the methods and the handlers
  -- of a tick and of its transactions give the same answers, and panic alike.
  pub tick_methods-Agrees :
      (params : Option lib.Value) (tick_str : Bytes) (t : ℕ) (s : db.Store)
      → extract_u32_param lib params 0 ≡ value t
      → parse_u32 tick_str ≡ some t
      → Agrees lib (tick_data db lib params s) (get_tick db lib tick_str s)
        × AgreesOrPanics lib
            (tick_transactions db lib params s)
            (get_tick_transactions db lib tick_str s)
  unfolding tick_data get_tick tick_transactions get_tick_transactions or_bad_request
  tick_methods-Agrees params tick_str t s e f =
      rw (e, f) (stored_or_null-Agrees (Warm.get_tick db t s), tick_transactions-found s t)

  -- For a text that is the first parameter and the part of a path, the method and the handler of a
  -- transaction give the same answer, errors included.
  pub transaction-Agrees :
      (params : Option lib.Value) (hash_str : Bytes) (s : db.Store)
      → extract_string_param lib params 0 ≡ value hash_str
      → Agrees lib (transaction db lib params s) (get_transaction db lib hash_str s)
  unfolding transaction get_transaction or_bad_request
  transaction-Agrees params hash_str s e = elim (Option-cases (lib.hex_decode hash_str)) [
    | inl bad ↦ rw (e, bad) refused
    | inr (hash, good) ↦ elim (Bool-cases (length hash == 32)) [
      | inl size ↦ rw (e, good, size) (stored_or_null-Agrees (Warm.get_tx db hash s))
      | inr other ↦ rw (e, good, other) refused
    ]
  ]
