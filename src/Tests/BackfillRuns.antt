-- ===== src/Tests/BackfillRuns.antt =====
-- Runs of crates/ingestion/src/backfill.rs.
use qonduit.Common.{
  ℕ, ◌+◌, ◌^◌, ◌%◌, ◌≡◌, ◌≢◌, inl, inr, refl, List, [], ◌∷◌, ◌++◌, length, take, true, none, some,
  arith,
}
use qonduit.Bytes.{Bytes, to_le, ok, panic, signed}
use qonduit.Bytes.Layout.{packed}
use qonduit.Core.Identity.{encode_base26}
use qonduit.Core.InputType.{classify, label}
use qonduit.Core.Hash.{External}
use qonduit.Ingestion.Protocol.{Poll, received, elapsed}
use qonduit.Ingestion.Peers.{SocketAddr}
use qonduit.Ingestion.Decoders.Tick.{decode_tick}
use qonduit.Ingestion.Decoders.Tick.Totality.{decode_tick-panic_iff}
use qonduit.Ingestion.Decoders.Transaction.{Transaction, decode_transaction}
use qonduit.Ingestion.Decoders.Transaction.Layouts.{
  transaction_fields, input_text, decode_transaction-packed,
}
use qonduit.Ingestion.Dispatch.{publish_one, transaction}
use qonduit.Ingestion.Backfill.State.{Session, finished, request_next, take_out, count_failed}
use qonduit.Ingestion.Backfill.{
  start_window, run_window, read_window, on_poll, refill, fill_pipeline, on_packet, on_tick,
  after_tick, on_failure, decode_and_publish,
}
use qonduit.Ingestion.Backfill.Plan.{
  new_shared, partition, assign, assignment, chunk_size, chunk_start,
}
use qonduit.Ingestion.Backfill.Whole.{WorkerRun, EachFinishes, requested, requested-partition}
use qonduit.Ingestion.Backfill.Partition.{ticks, ticks_of, ticks_of-partition}
use qonduit.Ingestion.Backfill.Window.{Holds}
use qonduit.Ingestion.Backfill.Connection.{run_window-Holds}
use qonduit.Ingestion.Backfill.Liveness.{answers, run_window-finished}
use qonduit.Ingestion.Backfill.Worker.{Connection, Dial, BackfillWorker, WorkerState, run_worker}
use qonduit.Ingestion.Backfill.Resuming.{Resumes, run_worker-Resumes}
use qonduit.Ingestion.Backfill.Transactions.{Fetcher, FetchState, fetched, fetch_txs_for_range}
use qonduit.Ingestion.Backfill.Fetching.{
  complete, listed, unrelated, none_left, one_more, fetch_txs_for_range-Adds,
}

abbrev lib : External
lib = record {
  k12 = λ bytes n. take n bytes;
  sha256 = λ bytes. take 32 bytes;
  hex_encode = λ bytes. bytes;
}

-- Three workers of seven ticks: two, two and three.
ticks_of-partition_example : ticks_of (partition 3 7 100 107) ≡ ticks 100 7
ticks_of-partition_example = ticks_of-partition 3 7 100 107 (omega arith)

abbrev session : Session
session = record {
  lib = lib;
  publish = λ m. true;
  worker_end = 12;
  epoch = 150;
  random = λ i. i + 1;
  writable = λ i. true;
}

abbrev packet : ℕ → ℕ → Bytes → Poll
packet msg_type dejavu payload =
    received (record { msg_type = msg_type; dejavu = dejavu; payload = payload })

-- A tick that does not decode, another message, and a refusal.
abbrev tick_payload : Bytes
tick_payload = 0 ∷ 0 ∷ 0 ∷ 0 ∷ 0 ∷ 0 ∷ 0 ∷ 0 ∷ []

abbrev polls : List Poll
polls = packet 8 1 tick_payload ∷ packet 28 9 [] ∷ packet 54 2 [] ∷ []

run_window-Holds_example :
    let r = run_window session (start_window session 10 new_shared 0 []) (elapsed ∷ polls) in
    Holds 12 10 (new_shared.ticks_completed + new_shared.ticks_failed) r.0 r.1
run_window-Holds_example =
    run_window-Holds session new_shared 10 0 [] (elapsed ∷ polls) (omega arith) (omega arith)

tick_decodes : decode_tick lib tick_payload ≢ panic
tick_decodes = λ e. absurd (omega (arith, (decode_tick-panic_iff lib tick_payload).0 e))

two_answers : answers session (refill session (start_window session 10 new_shared 0 [])) polls ≡ 2
unfolding refill fill_pipeline request_next take_out on_packet on_tick after_tick on_failure
    start_window decode_and_publish new_shared publish_one decode_tick
two_answers = refl

run_window-finished_example :
    let w = start_window session 10 new_shared 0 [] in
    ((run_window session w polls).0 ≡ finished) × ((run_window session w polls).1.next_tick ≡ 12)
run_window-finished_example =
    run_window-finished session new_shared 10 0 [] polls (omega arith) (omega arith) (λ i. refl)
      (inr tick_decodes, (inl (λ e. omega arith), (inl (λ e. omega arith), tt)))
      (omega (arith, two_answers))

abbrev node : SocketAddr
node = record { ip = 1 ∷ 2 ∷ 3 ∷ 4 ∷ []; port = 21841 }

abbrev connection : Connection
connection = record {
  remote_peers = some [];
  tick_info = none;
  random = λ i. i + 1;
  writable = λ i. true;
  polls = polls;
}

abbrev worker : BackfillWorker
worker = record { lib = lib; publish = λ m. true; node_epoch = 150; worker_end = 12 }

abbrev idle : WorkerState
idle = record {
  current_tick = 10;
  shared = new_shared;
  indexed_tick = 0;
  published = [];
  peers = [];
}

-- A refused connection, no further peer, and a connection that answers.
abbrev cycles : List (List Dial)
cycles =
    (record { addr = node; now = 5; connection = none } ∷ [])
    ∷ ((record { addr = node; now = 9; connection = some connection } ∷ []) ∷ [])

run_worker-Resumes_example : Resumes 10 12 (run_worker worker cycles idle)
run_worker-Resumes_example = run_worker-Resumes worker cycles idle (omega arith) (omega arith)

abbrev fetcher : Fetcher
fetcher = record {
  lib = lib;
  publish = λ m. true;
  epoch = 150;
  random = λ i. i;
  writable = λ i. true;
}

abbrev no_fetch : FetchState
no_fetch = record { sent = []; published = []; txs_discovered = 0 }

abbrev key : Bytes
key = to_le 32 0x1234

abbrev input : Bytes
input = 4 ∷ 5 ∷ []

abbrev tx_payload : Bytes
tx_payload = packed (transaction_fields key key 1000 5 1 input) ++ ((key ++ key) ++ [])

abbrev tx : Transaction
tx = record {
  hash = lib.hex_encode (lib.sha256 (packed (transaction_fields key key 1000 5 1 input)));
  source_hex = lib.hex_encode key;
  source_identity = encode_base26 lib.k12 key;
  destination_hex = lib.hex_encode key;
  destination_identity = encode_base26 lib.k12 key;
  amount = signed 64 1000;
  tick = 5;
  input_type = 1;
  input_size = length input;
  input_hex = input_text lib.hex_encode input;
  input_type_name = label (classify 1);
  signature_hex = lib.hex_encode (key ++ key);
}

tx_decodes : decode_transaction lib tx_payload ≡ ok tx
unfolding to_le
tx_decodes =
    decode_transaction-packed lib key key input (key ++ key) [] 1000 5 1 refl refl (omega arith)
      refl (omega arith) (omega arith) (omega arith)

abbrev tx_answers : List (List Poll)
tx_answers =
    (packet 24 1 tx_payload ∷ packet 28 1 [] ∷ packet 35 1 [] ∷ []) ∷ (packet 35 1 [] ∷ []) ∷ []

fetch_txs_for_range-Adds_example :
    let r = fetch_txs_for_range fetcher 5 7 tx_answers no_fetch in
    (r.0 ≡ fetched 7)
    × (r.1.published ≡ transaction 150 tx ∷ [])
    × (r.1.txs_discovered % 2 ^ 64 ≡ 1 % 2 ^ 64)
fetch_txs_for_range-Adds_example =
    fetch_txs_for_range-Adds fetcher 5 7 tx_answers (tx ∷ []) no_fetch (λ m. refl) (λ i. refl)
      (omega arith)
      (one_more
        (listed refl tx_decodes
          (unrelated (λ e. omega arith) (λ e. omega arith) (λ e. omega arith) (complete refl)))
        (one_more (complete refl) none_left))

-- The same two answers serve two workers of two ticks each.
abbrev two_runs : List WorkerRun
two_runs =
    let r : WorkerRun = record {
      session = session;
      shared = new_shared;
      indexed_tick = 0;
      published = [];
      polls = polls;
    } in
    r ∷ r ∷ []

two_finish : EachFinishes (partition 2 4 10 14) two_runs
unfolding partition assign assignment chunk_size chunk_start run_window start_window read_window
    on_poll on_packet on_tick on_failure after_tick refill fill_pipeline request_next take_out
    decode_and_publish publish_one decode_tick new_shared count_failed
two_finish = (refl, omega arith, (refl, omega arith, tt))

requested-partition_example : requested (partition 2 4 10 14) two_runs ≡ ticks 10 4
requested-partition_example =
    requested-partition 2 4 10 14 two_runs (omega arith) (omega arith) two_finish
