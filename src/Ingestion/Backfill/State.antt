-- ===== src/Ingestion/Backfill/State.antt =====
-- crates/ingestion/src/backfill.rs: the state of the window of requests, and the steps of the loops
-- over it that read or write no stream.
use qonduit.Common.{
  ℕ, ◌+◌, ◌*◌, ◌%◌, ◌^◌, min, max, List, [], ◌∷◌, ◌++◌, Bool, ◌==◌, length, Option, none, some,
  if◌then◌else◌,
}
use qonduit.Bytes.{Bytes, to_le}
use qonduit.Core.Hash.{External}
use qonduit.Core.Pipeline.{increment}
use qonduit.Ingestion.Protocol.{send_raw}
use qonduit.Ingestion.Dispatch.{Published}

abbrev pub max_consecutive_failures : ℕ
max_consecutive_failures = 30

abbrev pub pipeline_depth : ℕ
pipeline_depth = 20

abbrev pub failure_skip_initial : ℕ
failure_skip_initial = 10000

abbrev pub failure_skip_max : ℕ
failure_skip_max = 1000000

-- The tick and the correlation id of a request.
pub data ExpectedResponse : Type 0 where
  expected_tick : ℕ → ℕ → ExpectedResponse
  transaction_end : ℕ → ℕ → ExpectedResponse

abbrev pub dejavu : ExpectedResponse → ℕ
dejavu (expected_tick t d) = d
dejavu (transaction_end t d) = d

pub record BackfillShared : Type 0 where
  pub running : Bool
  pub ticks_completed : ℕ
  pub txs_discovered : ℕ
  pub ticks_discovered : ℕ
  pub ticks_failed : ℕ
  pub start_tick : ℕ
  pub end_tick : ℕ

-- What a connection is given: the hash functions, the publisher, the end of the worker's range, the
-- epoch that the node reports, and for each request its random number and whether it is written.
pub record Session : Type 0 where
  pub lib : External
  pub publish : Published → Bool
  pub worker_end : ℕ
  pub epoch : ℕ
  pub random : ℕ → ℕ
  pub writable : ℕ → Bool

-- The variables of the loop, the counters it shares, and what it has sent and published.
pub record WindowState : Type 0 where
  pub expected : List ExpectedResponse
  pub next_tick : ℕ
  pub consecutive_failures : ℕ
  pub skip_size : ℕ
  pub shared : BackfillShared
  pub indexed_tick : ℕ
  pub sent : List ExpectedResponse
  pub published : List Published

-- How the loop stands: it reads on, or it has ended. `out_of_rounds` is for missing fuel.
pub data Status : Type 0 where
  reading : Status
  finished : Status
  write_failed : Status
  read_failed : Status
  timed_out : Status
  panicked : Status
  out_of_rounds : Status

-- The bytes of a request.
unfoldable pub request_bytes : ExpectedResponse → Bytes
request_bytes (expected_tick t d) = send_raw 16 (to_le 4 t) d
request_bytes (transaction_end t d) = send_raw 29 (to_le 4 t) d

-- The branch of `fill_pipeline` after too many failures.
unfoldable pub skip_ahead : ℕ → WindowState → WindowState
skip_ahead worker_end w = record w {
  next_tick = min ((w.next_tick + w.skip_size) % 2 ^ 32) worker_end;
  consecutive_failures = 0;
  skip_size = min (w.skip_size * 2 % 2 ^ 32) failure_skip_max;
}

-- The request of the next tick.
unfoldable pub request_next : (ℕ → ℕ) → WindowState → WindowState
request_next random w =
    let e = expected_tick w.next_tick (max (random (length w.sent)) 1) in
    record w {
      expected = w.expected ++ (e ∷ []);
      sent = w.sent ++ (e ∷ []);
      next_tick = (w.next_tick + 1) % 2 ^ 32;
    }

unfoldable pub count_failed : BackfillShared → BackfillShared
count_failed c = record c { ticks_failed = increment c.ticks_failed }

unfoldable pub count_pending : List ExpectedResponse → BackfillShared → BackfillShared
count_pending [] c = c
count_pending (expected_tick t d ∷ es) c = count_pending es (count_failed c)
count_pending (transaction_end t d ∷ es) c = count_pending es c

abbrev pub put_back :
    ExpectedResponse
    → Option (ExpectedResponse × List ExpectedResponse)
    → Option (ExpectedResponse × List ExpectedResponse)
put_back e none = none
put_back e (some (f, fs)) = some (f, e ∷ fs)

-- `position` by the correlation id, and `remove` of what it finds.
unfoldable pub take_out :
    ℕ → List ExpectedResponse → Option (ExpectedResponse × List ExpectedResponse)
take_out d [] = none
take_out d (e ∷ es) = if dejavu e == d then some (e, es) else put_back e (take_out d es)

-- The test of the reading loop.
abbrev pub status_of : List ExpectedResponse → Status
status_of [] = finished
status_of (e ∷ es) = reading

abbrev pub settle : Status × WindowState → Status × WindowState
settle (reading, w) = (status_of w.expected, w)
settle (s, w) = (s, w)
