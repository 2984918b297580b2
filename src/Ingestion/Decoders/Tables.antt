-- ===== src/Ingestion/Decoders/Tables.antt =====
-- The decoders with tables: computors, contract IPO bids, transaction status, log id ranges.
pub mod Totality
use qonduit.Common.{
  ℕ, zero, suc, ◌+◌, ◌*◌, ◌≤◌, List, [], ◌∷◌, map, Bool, leb, length, if◌then◌else◌,
}
use qonduit.Bytes.{Bytes, Result, ok, panic, read_le, slice, signed, ℤ, ◌>>=◌}
use qonduit.Core.Hash.{External}
use qonduit.Core.Identity.{encode_base26}
use qonduit.Ingestion.Decoders.Guards.{at_least}

abbrev pub number_of_computors : ℕ
number_of_computors = 676

abbrev pub log_tx_per_tick : ℕ
log_tx_per_tick = 4096 + 6

-- `for i in first..first + n { out.push(f(i)) }`
unfoldable pub push_each {ℓ} : {A : Type ℓ} → ℕ → ℕ → (ℕ → Result A) → Result (List A)
push_each zero i f = ok []
push_each (suc n) i f = do a ← f i; rest ← push_each n (i + 1) f; ok (a ∷ rest)

pub record Computors : Type 0 where
  pub epoch : ℕ
  pub public_keys : List Bytes
  pub public_key_identities : List Bytes

-- The loop over the keys: a key that would not fit the payload is left out.
unfoldable pub computor_keys : ℕ → ℕ → Bytes → Result (List Bytes)
computor_keys zero i payload = ok []
computor_keys (suc n) i payload =
    let offset = 2 + i * 32 in
    let rest = computor_keys n (i + 1) payload in
    if leb (offset + 32) (length payload)
    then (do key ← slice payload offset (offset + 32); keys ← rest; ok (key ∷ keys))
    else rest

pub record ContractBid : Type 0 where
  pub identity : Bytes
  pub bid_amount : ℤ

pub record ContractIpo : Type 0 where
  pub contract_index : ℕ
  pub bids : List ContractBid

pub record LogIdRangesResponse : Type 0 where
  pub tick : ℕ
  pub tx_count : ℕ
  pub from_log_ids : List ℤ
  pub lengths : List ℤ

pub record TxStatusResponse : Type 0 where
  pub current_tick_of_node : ℕ
  pub tick : ℕ
  pub tx_count : ℕ
  pub money_flew_hex : Bytes
  pub tx_digests : List Bytes

-- An i64 at `off`.
abbrev pub read_i64 : Bytes → ℕ → Result ℤ
read_i64 payload off = do v ← read_le payload off 8; ok (signed 64 v)

unfoldable pub decode_all_log_id_ranges : Bytes → ℕ → Result LogIdRangesResponse
decode_all_log_id_ranges payload tick = at_least (log_tx_per_tick * 8 * 2) payload (do
  from_log_ids ← push_each log_tx_per_tick 0 (λ i. read_i64 payload (i * 8))
  lengths ← push_each log_tx_per_tick 0 (λ i. read_i64 payload (log_tx_per_tick * 8 + i * 8))
  ok (record {
    tick = tick;
    tx_count = log_tx_per_tick;
    from_log_ids = from_log_ids;
    lengths = lengths;
  }))

module _ (lib : External) where
  open lib use {k12, hex_encode}

  unfoldable pub decode_computors : Bytes → Result Computors
  decode_computors payload = at_least 21634 payload (do
    epoch ← read_le payload 0 2
    public_keys ← computor_keys number_of_computors 0 payload
    ok (record {
      epoch = epoch;
      public_keys = public_keys;
      public_key_identities = map (encode_base26 k12) public_keys;
    }))

  unfoldable pub contract_bid : Bytes → ℕ → Result ContractBid
  contract_bid payload i = do
    let key_off = 8 + i * 32
    identity_bytes ← slice payload key_off (key_off + 32)
    let price_off = 8 + number_of_computors * 32 + i * 8
    bid_amount ← read_le payload price_off 8
    ok (record { identity = encode_base26 k12 identity_bytes; bid_amount = signed 64 bid_amount })

  unfoldable pub decode_contract_ipo : Bytes → Result ContractIpo
  decode_contract_ipo payload = at_least 27048 payload (do
    contract_index ← read_le payload 0 4
    bids ← push_each number_of_computors 0 (contract_bid payload)
    ok (record { contract_index = contract_index; bids = bids }))

  -- One digest, as hexadecimal text.
  unfoldable pub tx_digest : Bytes → ℕ → Result Bytes
  tx_digest payload i = do
    let off = 524 + i * 32
    digest ← slice payload off (off + 32)
    ok (hex_encode digest)

  unfoldable pub tx_digests_of : Bytes → ℕ → Result (List Bytes)
  tx_digests_of payload tx_count =
      if leb (524 + tx_count * 32) (length payload)
      then push_each tx_count 0 (tx_digest payload)
      else ok []

  -- `Vec::with_capacity(tx_count as usize)` comes before the length is compared: `reserves` says
  -- for which capacities the allocator has room, and where it has none the process is aborted,
  -- written `panic` here.
  unfoldable pub decode_tx_status : (ℕ → Bool) → Bytes → ℕ → Result TxStatusResponse
  decode_tx_status reserves payload _tick = at_least 524 payload (do
    current_tick_of_node ← read_le payload 0 4
    resp_tick ← read_le payload 4 4
    tx_count ← read_le payload 8 4
    money_flew ← slice payload 12 524
    tx_digests ← if reserves tx_count then tx_digests_of payload tx_count else panic
    ok (record {
      current_tick_of_node = current_tick_of_node;
      tick = resp_tick;
      tx_count = tx_count;
      money_flew_hex = hex_encode money_flew;
      tx_digests = tx_digests;
    }))
