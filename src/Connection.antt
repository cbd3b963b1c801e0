-- ===== src/Connection.antt =====
-- pkg/surql/connection: what the migrations use of the client, and its interactive transactions.
pub mod Values
pub mod Client
pub mod Transactions
pub mod Registry
