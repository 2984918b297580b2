-- ===== src/Core/Asset.antt =====
-- AssetType and AssetRecord of crates/core/src/structs/asset.rs.
use qonduit.Common.{ℕ, Bool}
use qonduit.Bytes.{Bytes, ℤ}

pub data AssetType : Type 0 where
  empty : AssetType
  issuance : AssetType
  ownership : AssetType
  possession : AssetType

pub record AssetRecord : Type 0 where
  pub asset_type : AssetType
  pub managed : Bool
  pub issuing_entity : Bytes
  pub owning_entity : Bytes
  pub possessing_entity : Bytes
  pub issuance_index : ℕ
  pub issuance_amount : ℤ
  pub number_of_units : ℤ
  pub unit_of_measurement : ℕ
  pub denomination : ℕ
  pub value_per_unit : ℤ
  pub name : Bytes
  pub description : Bytes
  pub url : Bytes
  pub hash : Bytes
  pub managing_contract_index : ℤ
