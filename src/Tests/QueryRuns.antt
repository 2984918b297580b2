-- ===== src/Tests/QueryRuns.antt =====
-- Runs of crates/query over sorted lists, with a small encoding in place of JSON.
use qonduit.Common.{◌≡◌, ◌≢◌, refl, sym, ap, true, All, [], ◌∷◌, ◌++◌, none, some, arith}
use qonduit.Bytes.{Bytes, ok, to_be, from_be_acc}
use qonduit.Core.Identity.{bytes_eq, decode_base26, encode_base26}
use qonduit.Core.Identity.RoundTrip.{decode_base26-encode_base26}
use qonduit.Storage.Database.ListStore.{list_database, list_database-IsLawful}
use qonduit.Storage.Keys.{scan_prefix, from_key, set_value, before, has_prefix}
use qonduit.Storage.Warm.{put_entity, put_entity_asset}
use qonduit.Storage.Warm.Scans.{get_assets_for_entity}
use qonduit.Processor.Indexer.{new, hash_bytes}
use qonduit.Processor.Indexer.Transactions.{index_transactions}
use qonduit.Query.Values.{External}
use qonduit.Query.Texts.{
  codes, parse_u32, parse_number, parse_digits, trim, trim_start, is_whitespace, is_ascii_digit,
}
use qonduit.Query.Rest.{
  raw, json, parse_all, get_tick, get_tick_transactions, get_transaction, get_entity,
  get_spectrum_entry, get_owned_assets, get_possessed_assets,
}
use qonduit.Query.Rest.Search.{search}
use qonduit.Query.Rest.Endpoints.{search-put_entity}
use qonduit.Query.Rpc.{JsonRpcRequest}
use qonduit.Query.Rpc.Params.{value, extract_string_param, extract_u32_param}
use qonduit.Query.Rpc.Lookups.{tick_data, tick_transactions}
use qonduit.Query.Agreement.{
  Agrees, AgreesOrPanics, answer, identity_methods-Agrees, tick_methods-Agrees,
}
use qonduit.Query.Indexed.{parsing, get_transaction-indexed, get_tick_transactions-indexed}
use qonduit.Tests.IndexerRuns.{
  fill, fill-IsBytes, hex_of, parsers, started, started-IsValid, no_last_tick, no_hashes,
  hex_of-IsBytes, transaction_of, transactions,
}

-- A value is a text; an array of parameters has one element.
abbrev values : External
values = record {
  Value = Bytes;
  from_slice = λ bytes. some bytes;
  json_error = λ bytes. [];
  null = [];
  number = λ n. n ∷ [];
  boolean = λ b. [];
  text = λ s. s;
  literal = codes;
  array = λ vs. [];
  object = λ fields. [];
  get = λ v name. none;
  as_array = λ v. some (v ∷ []);
  as_str = λ v. some v;
  as_u64 = λ v. some 7;
  insert = λ v name w. v;
  value_eq = bytes_eq;
  hex_decode = hex_of;
  hex_error = λ s. [];
  k12 = λ bytes n. fill n 0;
}

hash_of_1 : hash_bytes list_database parsers (transaction_of 10 1) ≡ fill 32 1
unfolding hash_bytes decode_base26
hash_of_1 = refl

other_hash :
    hash_bytes list_database parsers (transaction_of 10 2)
    ≢ hash_bytes list_database parsers (transaction_of 10 1)
unfolding hash_bytes decode_base26
other_hash = λ e. absurd (ground arith)

get_transaction-indexed_example :
    get_transaction list_database values
      (1 ∷ [])
      (index_transactions list_database parsers transactions started).storage
    ≡ raw (10 ∷ 1 ∷ [])
get_transaction-indexed_example =
    get_transaction-indexed list_database parsers values list_database-IsLawful (10 ∷ 1 ∷ [])
      (transaction_of 10 1) ([] ∷ (10 ∷ 2 ∷ []) ∷ []) started (1 ∷ []) hex_of-IsBytes refl
      (tt, (other_hash, tt)) (ap some (sym hash_of_1))

text_10 : parse_u32 (codes "10") ≡ some 10
unfolding parse_number parse_digits is_ascii_digit
text_10 = refl

get_tick_transactions-indexed_example :
    get_tick_transactions list_database values
      (codes "10")
      (index_transactions list_database parsers transactions started).storage
    ≡ ok (
        json (
          values.array (
            parse_all list_database values
              (parsing list_database parsers values list_database-IsLawful transactions))))
unfolding new list_database
get_tick_transactions-indexed_example =
    get_tick_transactions-indexed list_database parsers values list_database-IsLawful (codes "10")
      10 transactions started hex_of-IsBytes text_10 (refl, (tt, (refl, tt)))
      ((tt, (other_hash, tt)), (tt, (tt, tt))) (omega arith) started-IsValid
      (λ e. omega (arith, no_last_tick)) no_hashes

-- The first parameter is the text "10".
first_text : extract_string_param values (some (codes "10")) 0 ≡ value (codes "10")
unfolding extract_string_param
first_text = refl

identity_methods-Agrees_example :
    let s = list_database.new in
    let id = codes "10" in
    let answers = answer list_database values [] [] (some id) s in
    Agrees values (answers "getEntity") (get_entity list_database values id s)
    × Agrees values (answers "getSpectrum") (get_spectrum_entry list_database values id s)
    × Agrees values (answers "getOwnedAssets") (get_owned_assets list_database values id s)
    × Agrees values (answers "getAssetsByOwner") (get_owned_assets list_database values id s)
    × Agrees values (answers "getPossessedAssets") (get_possessed_assets list_database values id s)
identity_methods-Agrees_example =
    identity_methods-Agrees list_database values [] [] (some (codes "10")) list_database.new
      (codes "10") first_text

text_7 : parse_u32 (codes "7") ≡ some 7
unfolding parse_number parse_digits is_ascii_digit
text_7 = refl

first_number : extract_u32_param values (some (codes "7")) 0 ≡ value 7
unfolding extract_u32_param
first_number = refl

tick_methods-Agrees_example :
    let s = list_database.new in
    let params = some (codes "7") in
    Agrees values
      (tick_data list_database values params s)
      (get_tick list_database values (codes "7") s)
    × AgreesOrPanics values
        (tick_transactions list_database values params s)
        (get_tick_transactions list_database values (codes "7") s)
tick_methods-Agrees_example =
    tick_methods-Agrees list_database values (some (codes "7")) (codes "7") 7 list_database.new
      first_number text_7

trimmed_7 : trim (codes " 7 ") ≡ codes "7"
unfolding trim trim_start is_whitespace
trimmed_7 = refl

blanks : All (λ c. is_whitespace c ≡ true) (codes "  ")
unfolding is_whitespace
blanks = (refl, (refl, tt))

search-put_entity_example :
    (search list_database values
        (codes "  " ++ (encode_base26 values.k12 (fill 32 1) ++ codes "  "))
        (put_entity list_database (fill 32 1) (7 ∷ []) list_database.new)
      ≡ json [])
    × (get_entity list_database values
          (encode_base26 values.k12 (fill 32 1))
          (put_entity list_database (fill 32 1) (7 ∷ []) list_database.new)
        ≡ raw (7 ∷ []))
search-put_entity_example =
    search-put_entity list_database values list_database-IsLawful (fill 32 1) (7 ∷ []) (codes "  ")
      (codes "  ") (7 ∷ []) list_database.new (fill-IsBytes 32 1 (omega arith)) refl refl blanks
      blanks

abbrev unknown : JsonRpcRequest Bytes
unknown = record { jsonrpc = codes "2.0"; method = codes "getPeers"; params = none; id = none }

one_asset :
    get_assets_for_entity list_database
      (fill 32 1)
      (put_entity_asset list_database (fill 32 1) 5 list_database.new)
    ≡ 5 ∷ []
unfolding get_assets_for_entity put_entity_asset list_database scan_prefix from_key set_value before
    to_be has_prefix from_be_acc
one_asset = refl

abbrev owner : Bytes
owner = encode_base26 values.k12 (fill 32 1)

owner_key : decode_base26 values.k12 owner ≡ some (fill 32 1)
owner_key =
    decode_base26-encode_base26 values.k12 (fill 32 1) (fill-IsBytes 32 1 (omega arith)) refl
