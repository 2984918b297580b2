-- ===== src/Tests/DispatchRuns.antt =====
-- Runs of the dispatch of crates/ingestion/src/decoder.rs.
use qonduit.Common.{ℕ, ◌≡◌, ◌↔◌, ◌++◌, ◌∷◌, take, Bool, true, leb}
use qonduit.Bytes.{Bytes, panic, to_le}
use qonduit.Core.Hash.{External}
use qonduit.Ingestion.Votes.{new_aggregator}
use qonduit.Ingestion.Votes.Handler.{VoteState}
use qonduit.Ingestion.Dispatch.{decode_and_publish}
use qonduit.Ingestion.Dispatch.Panics.{Stops, decode_and_publish-panic_iff}

abbrev lib : External
lib = record {
  k12 = λ bytes n. take n bytes;
  sha256 = λ bytes. take 32 bytes;
  hex_encode = λ bytes. bytes;
}

abbrev idle : VoteState
idle = record { vote_aggregator = new_aggregator; vote_count = 0 }

-- A tick of month 14.
abbrev bad_tick : Bytes
bad_tick = to_le 14 0 ++ (14 ∷ to_le 33 0)

abbrev tick_type : ℕ
tick_type = 8

-- An allocator with room for a million texts.
abbrev room : ℕ → Bool
room n = leb n 1000000

decode_and_publish-panic_iff_example :
    ((decode_and_publish lib (λ m. true) room idle tick_type 1 bad_tick 150).1.outcome ≡ panic)
    ↔ Stops lib room tick_type bad_tick
decode_and_publish-panic_iff_example =
    decode_and_publish-panic_iff lib (λ m. true) room idle tick_type 1 bad_tick 150
