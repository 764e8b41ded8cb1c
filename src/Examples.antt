-- ===== src/Examples.antt =====
-- Concrete runs: a machine with exact amounts, a small set of books on it, and the theorems applied
-- there.
mod Machine
mod Books
mod Approvals
mod Funds
mod Wallets
mod Hashlock
mod Windows
mod Names
mod Payments
mod Requests
mod Calls
mod Routes
