-- ===== src/Examples.antt =====
-- Tests of the models on concrete data, and each theorem at an input that meets its hypotheses.
pub mod ChainTests
pub mod ProofTests
pub mod RunTests
pub mod TaskTests
pub mod RandomTests
pub mod KeyTests
pub mod ProverTests
pub mod NodeTests
pub mod BackupTests
pub mod CacheTests
pub mod FillerTests
pub mod SendTests
pub mod ConfigTests
pub mod WireTests
pub mod ErasureTests
pub mod TagTests
pub mod ProtocolTests
pub mod ProofTaskTests
pub mod ConsoleTests
