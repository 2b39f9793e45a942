-- ===== src/Tests.antt =====
-- Concrete runs of the models, and each result applied to one.
mod Texts
mod Functions
mod Caching
mod Transactions
mod Migrations
mod Pools
mod Sources
mod Adapters
mod Inserts
mod Names
mod Batches
