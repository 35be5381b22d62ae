-- ===== src/Tests.antt =====
-- The theorems at concrete inputs, and runs of the definitions.
mod Symbols
mod Stores
mod Texts
mod Templates
mod Includes
mod Queries
mod Handlers
mod Analysis
mod Proxy
