-- ===== src/Core/InputType.antt =====
-- crates/core/src/structs/transaction.rs: the classification of transaction inputs.
use Prim.Native.String.{String}
use qonduit.Common.{ℕ, ◌==◌, if◌then◌else◌}

pub data InputType : Type 0 where
  simple_transfer : InputType
  smart_contract_call : ℕ → InputType
  asset_issuance : InputType
  asset_ownership_transfer : InputType
  asset_possession_transfer : InputType
  dividend_distribution : InputType
  contract_bid : InputType
  contract_ask : InputType

unfoldable pub classify : ℕ → InputType
classify input_type =
    if input_type == 0
    then simple_transfer
    else if input_type == 1
    then asset_issuance
    else if input_type == 2
    then asset_ownership_transfer
    else if input_type == 3
    then asset_possession_transfer
    else if input_type == 24
    then contract_bid
    else if input_type == 25
    then contract_ask
    else if input_type == 26
    then dividend_distribution
    else smart_contract_call input_type

unfoldable pub label : InputType → String
label simple_transfer = "simple_transfer"
label asset_issuance = "asset_issuance"
label asset_ownership_transfer = "asset_ownership_transfer"
label asset_possession_transfer = "asset_possession_transfer"
label dividend_distribution = "dividend_distribution"
label contract_bid = "contract_bid"
label contract_ask = "contract_ask"
label (smart_contract_call n) = "smart_contract_call"
