-- ===== src/Ingestion/Decoders/Tick.antt =====
-- The decoder of tick data, and its conversion of dates to Unix time. The accumulators of the loops
-- stay far below 2 ^ 64 on the dates of a payload, so their sums do not wrap.
pub mod Dates
pub mod Calendar
pub mod Totality
use qonduit.Common.{
  ℕ, zero, suc, ◌+◌, ◌-◌, ◌*◌, ◌%◌, List, [], ◌∷◌, Bool, not, ◌&&◌, ◌||◌, ◌==◌, Option, none, some,
  ltb, leb, length, get_elem?, if◌then◌else◌,
}
use qonduit.Bytes.{
  Bytes, Result, ok, err, panic, invalid_epoch, invalid_computor_index, read_le, read_u8, slice,
  ◌>>=◌,
}
use qonduit.Core.Hash.{External}
use qonduit.Ingestion.Decoders.Guards.{at_least}

unfoldable pub is_leap_year : ℕ → Bool
is_leap_year year = (year % 4 == 0 && not (year % 100 == 0)) || year % 400 == 0

abbrev pub days_in_month : List ℕ
days_in_month = 0 ∷ 31 ∷ 28 ∷ 31 ∷ 30 ∷ 31 ∷ 30 ∷ 31 ∷ 31 ∷ 30 ∷ 31 ∷ 30 ∷ 31 ∷ []

-- `xs[i]`, which panics out of range.
unfoldable pub index : List ℕ → ℕ → Result ℕ
index xs i = elim (get_elem? xs i) [ none ↦ panic | some x ↦ ok x ]

-- The loop over the years from `y` on, `n` of them.
unfoldable pub add_years : ℕ → ℕ → ℕ → ℕ
add_years total_days zero y = total_days
add_years total_days (suc n) y =
    add_years (total_days + (if is_leap_year y then 366 else 365)) n (y + 1)

-- The loop over the months from `m` on, `n` of them.
unfoldable pub add_months : ℕ → ℕ → ℕ → ℕ → Result ℕ
add_months total_days zero m year = ok total_days
add_months total_days (suc n) m year = do
  days ← index days_in_month m
  add_months (total_days + days + (if m == 2 && is_leap_year year then 1 else 0)) n (m + 1) year

unfoldable pub qubic_date_to_unix : ℕ → ℕ → ℕ → ℕ → ℕ → ℕ → Result ℕ
qubic_date_to_unix year month day hour minute second = do
  months ← add_months (add_years 0 (year - 1970) 1970) (month - 1) 1 year
  let total_days = months + (day - 1)
  ok (total_days * 86400 + hour * 3600 + minute * 60 + second)

pub record TickData : Type 0 where
  pub computor_index : ℕ
  pub epoch : ℕ
  pub tick : ℕ
  pub timestamp : ℕ
  pub time_lock : Bytes
  pub transaction_digests_hex : Bytes
  pub contract_fees_hex : Bytes
  pub signature_hex : Bytes

module _ (lib : External) where
  open lib use {hex_encode}

  -- The transaction digests, contract fees and signature: all of a full payload, and what there is
  -- of a partial one.
  unfoldable pub tick_tail : Bytes → Result (Bytes × Bytes × Bytes)
  tick_tail payload =
      if leb 139376 (length payload)
      then (do
        digests ← slice payload 48 131120
        fees ← slice payload 131120 139312
        signature ← slice payload 139312 139376
        ok (hex_encode digests, hex_encode fees, hex_encode signature))
      else if ltb 48 (length payload)
      then (do rest ← slice payload 48 (length payload); ok (hex_encode rest, [], []))
      else ok ([], [], [])

  -- What follows the validation of the epoch and the computor index.
  unfoldable pub decode_tick_body : Bytes → ℕ → ℕ → ℕ → Result TickData
  decode_tick_body payload computor_index epoch tick = do
    _millisecond ← read_le payload 8 2
    second ← read_u8 payload 10
    minute ← read_u8 payload 11
    hour ← read_u8 payload 12
    day ← read_u8 payload 13
    month ← read_u8 payload 14
    year ← read_u8 payload 15
    timestamp ← qubic_date_to_unix (2000 + year) month day hour minute second
    time_lock ← slice payload 16 48
    (transaction_digests_hex, contract_fees_hex, signature_hex) ← tick_tail payload
    ok (record {
      computor_index = computor_index;
      epoch = epoch;
      tick = tick;
      timestamp = timestamp;
      time_lock = time_lock;
      transaction_digests_hex = transaction_digests_hex;
      contract_fees_hex = contract_fees_hex;
      signature_hex = signature_hex;
    })

  unfoldable pub decode_tick : Bytes → Result TickData
  decode_tick payload = at_least 48 payload (do
    computor_index ← read_le payload 0 2
    epoch ← read_le payload 2 2
    tick ← read_le payload 4 4
    if ltb 1000 epoch
        then err (invalid_epoch epoch)
        else if ltb 1000 computor_index
        then err (invalid_computor_index computor_index)
        else decode_tick_body payload computor_index epoch tick)
