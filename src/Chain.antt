-- ===== src/Chain.antt =====
-- pkg/chain: the client of the CESS chain, its queries and its transactions.
pub mod Types
pub mod Client
pub mod Query
pub mod Submit
