-- ===== src/Tests.antt =====
-- Runs on concrete inputs, and the theorems at concrete inputs.
mod CoreRuns
mod WireRuns
mod DecoderRuns
mod VoteRuns
mod CacheRuns
mod WarmRuns
mod IndexerRuns
mod PeerRuns
mod EpochRuns
mod DispatchRuns
mod BackfillRuns
mod QueryRuns
