-- ===== src/Tests.antt =====
-- The theorems applied at concrete inputs, with money as fixed-point numbers (Tests/Fixed.antt).
mod Fixed
mod Pipeline
mod Feeds
mod Market
mod Metadata
mod Sockets
mod Scans
mod Harvests
mod Threads
mod Captures
mod Trades
mod Sessions
