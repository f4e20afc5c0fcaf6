-- ===== src/Bot.antt =====
-- src/bot: the trading bot. Books is BookState.hpp/.cpp, Orders is OrderGateway.hpp/.cpp, and
-- Strategy is StrategyEngine.hpp with the constants of BotConfig.hpp, Feed is FeedHandler.cpp,
-- Discovery is BotDiscovery.cpp and Main is main.cpp.
pub mod Books
pub mod Orders
pub mod Strategy
pub mod Feed
pub mod Discovery
pub mod Main
