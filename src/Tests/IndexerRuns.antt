-- ===== src/Tests/IndexerRuns.antt =====
-- Runs of crates/processor/src/indexer.rs over sorted lists, with a small encoding in place of JSON.
use qonduit.Common.{
  ℕ, zero, suc, ◌%◌, ◌<◌, ◌≡◌, refl, subst, some_injective, List, [], ◌∷◌, Option, none, some, ◌==◌,
  if◌then◌else◌, arith,
}
use qonduit.Bytes.{Bytes, IsBytes, ok, pos, to_be}
use qonduit.Core.Pipeline
use qonduit.Core.Pipeline.{EpochStats}
use qonduit.Ingestion.Decoders.Tick.{TickData}
use qonduit.Ingestion.Decoders.Transaction.{Transaction}
use qonduit.Storage.Keys.{from_key, scan_prefix, value_at}
use qonduit.Storage.Database.{cf_tx_by_tick, cf_epoch_stats, cf_custom_message}
use qonduit.Storage.Database.ListStore.{list_database, list_database-IsLawful}
use qonduit.Storage.Warm.{tick_index_key, get_epoch_stats}
use qonduit.Storage.Warm.Scans.{get_custom_messages_for_tick, get_tx_hashes_for_tick, copy_hashes}
use qonduit.Storage.Warm.Valid.{IsValid, changes-new-IsValid}
use qonduit.Storage.Warm.Changes.{changes}
use qonduit.Processor.Parsers.{External}
use qonduit.Processor.Indexer.{Indexer, new, hash_bytes}
use qonduit.Processor.Indexer.Records.{number_field}
use qonduit.Processor.Indexer.Summaries.{summary, least, greatest}
use qonduit.Processor.Indexer.Stats.{tick_in, ticks_of, stats_at, index_ticks, index_ticks-summary}
use qonduit.Processor.Indexer.Messages.{
  messages_of, message_in, index_custom_messages,
  get_custom_messages_for_tick-index_custom_messages,
}
use qonduit.Processor.Indexer.Transactions.{index_transactions}
use qonduit.Processor.Indexer.Interleaved.{index_transactions-interleaved}

abbrev pub fill : ℕ → ℕ → Bytes
fill zero b = []
fill (suc n) b = b ∷ fill n b

pub fill-IsBytes : (n b : ℕ) → b < 256 → IsBytes (fill n b)
fill-IsBytes zero b h = tt
fill-IsBytes (suc n) b h = (h, fill-IsBytes n b h)

abbrev pub transaction_of : ℕ → ℕ → Transaction
transaction_of tick h = record {
  hash = h ∷ [];
  source_hex = [];
  source_identity = [];
  destination_hex = h ∷ [];
  destination_identity = [];
  amount = pos 1;
  tick = tick;
  input_type = 0;
  input_size = 0;
  input_hex = [];
  input_type_name = "";
  signature_hex = [];
}

-- A transaction is its tick and a byte of its hash, another value is its tick.
abbrev pub parse_transaction : Bytes → Option Transaction
parse_transaction (tick ∷ h ∷ []) = some (transaction_of tick h)
parse_transaction _ = none

abbrev pub parse_value : Bytes → Option Bytes
parse_value [] = none
parse_value (tick ∷ v) = some (tick ∷ v)

abbrev pub first_byte : Bytes → Option ℕ
first_byte [] = none
first_byte (b ∷ bs) = some b

abbrev pub hex_of : Bytes → Option Bytes
hex_of [] = none
hex_of (b ∷ bs) = some (fill 32 (b % 256))

abbrev pub option_code : Option ℕ → ℕ
option_code none = 0
option_code (some a) = suc a

abbrev pub of_code : ℕ → Option ℕ
of_code zero = none
of_code (suc a) = some a

abbrev pub encode_stats : EpochStats → Bytes
encode_stats st =
    st.epoch
    ∷ st.tick_count
    ∷ st.tx_count
    ∷ st.entity_count
    ∷ option_code st.first_tick
    ∷ option_code st.last_tick
    ∷ []

abbrev pub decode_stats : Bytes → Option EpochStats
decode_stats (e ∷ c ∷ t ∷ n ∷ f ∷ l ∷ []) = some (record {
  epoch = e;
  tick_count = c;
  tx_count = t;
  entity_count = n;
  first_tick = of_code f;
  last_tick = of_code l;
})
decode_stats _ = none

of_code-option_code : (o : Option ℕ) → of_code (option_code o) ≡ o
of_code-option_code none = refl
of_code-option_code (some a) = refl

decode_stats-encode_stats : (st : EpochStats) → decode_stats (encode_stats st) ≡ some st
decode_stats-encode_stats st =
    rw (of_code-option_code st.first_tick, of_code-option_code st.last_tick)

abbrev pub parse_tick : Bytes → Option TickData
parse_tick (tick ∷ epoch ∷ []) = some (record {
  computor_index = 0;
  epoch = epoch;
  tick = tick;
  timestamp = 0;
  time_lock = [];
  transaction_digests_hex = [];
  contract_fees_hex = [];
  signature_hex = [];
})
parse_tick _ = none

abbrev pub parsers : External
parsers = record {
  Value = Bytes;
  value = parse_value;
  as_u64 = λ v name. first_byte v;
  as_str = λ v name. none;
  tick_data = parse_tick;
  transaction = parse_transaction;
  entity_data = λ payload. none;
  computors = λ payload. none;
  asset_record = λ payload. none;
  contract_ipo = λ payload. none;
  log_events = λ payload. none;
  log_event_to_vec = λ event. none;
  epoch_stats = decode_stats;
  epoch_stats_to_vec = λ stats. some (encode_stats stats);
  hex_decode = hex_of;
  k12 = λ bytes n. fill n 0;
}

pub hex_of-IsBytes : (s b : Bytes) → hex_of s ≡ some b → IsBytes b
hex_of-IsBytes [] b h = absurd (cc)
hex_of-IsBytes (x ∷ s) b h =
    subst IsBytes (some_injective h) (fill-IsBytes 32 (x % 256) (omega arith))

abbrev pub started : Indexer list_database
started = new list_database parsers list_database.new (qonduit.Core.Pipeline.new 1000)

pub started-IsValid : IsValid list_database list_database.new
unfolding changes
started-IsValid = changes-new-IsValid list_database list_database-IsLawful [] tt

pub no_last_tick : started.tx_last_tick ≡ 0
unfolding new
no_last_tick = refl

no_messages : get_custom_messages_for_tick list_database 10 list_database.new ≡ []
unfolding get_custom_messages_for_tick from_key scan_prefix
no_messages = rw (
  list_database-IsLawful.from_forward list_database.new cf_custom_message (to_be 4 10),
  list_database-IsLawful.new_empty cf_custom_message,
)

pub no_hashes : get_tx_hashes_for_tick list_database 10 list_database.new ≡ ok []
unfolding get_tx_hashes_for_tick copy_hashes from_key scan_prefix
no_hashes = rw (
  list_database-IsLawful.from_forward list_database.new cf_tx_by_tick (to_be 4 10),
  list_database-IsLawful.new_empty cf_tx_by_tick,
)

no_hash : list_database.get_cf list_database.new cf_tx_by_tick (tick_index_key 10 0) ≡ none
unfolding value_at
no_hash = rw (
  list_database-IsLawful.get_iterator list_database.new cf_tx_by_tick (tick_index_key 10 0),
  list_database-IsLawful.new_empty cf_tx_by_tick,
)

abbrev messages : List Bytes
messages = (10 ∷ 1 ∷ []) ∷ (11 ∷ []) ∷ [] ∷ (10 ∷ 2 ∷ []) ∷ []

messages_of_10 : messages_of list_database parsers 10 messages ≡ (10 ∷ 1 ∷ []) ∷ (10 ∷ 2 ∷ []) ∷ []
unfolding messages_of message_in number_field
messages_of_10 = refl

get_custom_messages_for_tick-index_custom_messages_example :
    get_custom_messages_for_tick list_database 10
      (index_custom_messages list_database parsers messages started).storage
    ≡ messages_of list_database parsers 10 messages
unfolding new list_database
get_custom_messages_for_tick-index_custom_messages_example =
    get_custom_messages_for_tick-index_custom_messages list_database parsers list_database-IsLawful
      10 (omega arith) messages started (omega arith) started-IsValid no_messages

abbrev pub transactions : List Bytes
transactions = (10 ∷ 1 ∷ []) ∷ [] ∷ (10 ∷ 2 ∷ []) ∷ []

index_transactions-interleaved_example :
    list_database.get_cf
      (index_transactions list_database parsers
        ((10 ∷ 1 ∷ []) ∷ (11 ∷ 2 ∷ []) ∷ (10 ∷ 3 ∷ []) ∷ [])
        started).storage
      cf_tx_by_tick
      (tick_index_key 10 0)
    ≡ (if 0 == 0 then some (hash_bytes list_database parsers (transaction_of 10 3)) else none)
unfolding new list_database
index_transactions-interleaved_example =
    index_transactions-interleaved list_database parsers list_database-IsLawful hex_of-IsBytes
      started (10 ∷ 1 ∷ []) (11 ∷ 2 ∷ []) (10 ∷ 3 ∷ []) (transaction_of 10 1) (transaction_of 11 2)
      (transaction_of 10 3) 0 refl refl refl refl (λ e. omega arith) (omega arith) (omega arith)
      (λ e. omega (arith, no_last_tick)) (omega arith) no_hash

no_stats : get_epoch_stats list_database 3 list_database.new ≡ none
unfolding get_epoch_stats value_at
no_stats = rw (
  list_database-IsLawful.get_iterator list_database.new cf_epoch_stats (to_be 2 3),
  list_database-IsLawful.new_empty cf_epoch_stats,
)

abbrev ticks : List Bytes
ticks = (12 ∷ 3 ∷ []) ∷ (10 ∷ 3 ∷ []) ∷ [] ∷ (11 ∷ 3 ∷ []) ∷ []

summary_of_ticks : summary 3 (ticks_of list_database parsers ticks) ≡ record {
  epoch = 3;
  tick_count = 3;
  tx_count = 0;
  entity_count = 0;
  first_tick = some 10;
  last_tick = some 12;
}
unfolding summary ticks_of tick_in least greatest
summary_of_ticks = refl

index_ticks-summary_example :
    stats_at list_database parsers 3 (index_ticks list_database parsers ticks started)
    ≡ summary 3 (ticks_of list_database parsers ticks)
unfolding new list_database
index_ticks-summary_example =
    index_ticks-summary list_database parsers list_database-IsLawful
      (λ st. (encode_stats st, refl, decode_stats-encode_stats st)) 3 ticks started (omega arith)
      (refl, (refl, (tt, (refl, tt)))) no_stats
