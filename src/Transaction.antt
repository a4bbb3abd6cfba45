-- ===== src/Transaction.antt =====
-- Transactions (src/lsm/transation.cpp, include/lsm/transaction.h).
pub mod Manager
pub mod Context
pub mod Reads
pub mod Ids
pub mod Updating
pub mod Writes
pub mod Commit
pub mod Visible
mod Examples
