-- ===== src/Coinbase.antt =====
-- src/coinbase: the BTC price feed (Coinbase/Feed.antt, CoinbaseFeed.cpp) and its journal
-- (Coinbase/Journal.antt, BtcJournal.hpp). Coinbase/Session.antt is the connection and main.cpp.
pub mod Journal
pub mod Feed
pub mod Session
