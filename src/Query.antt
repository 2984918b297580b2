-- ===== src/Query.antt =====
-- crates/query: the answers of the REST and the JSON-RPC interface from the warm store. Requests
-- come in with the path or the method and the parameters taken apart by the framework.
pub mod Values
pub mod Texts
pub mod Rest
pub mod Rpc
pub mod Indexed
pub mod Agreement
