-- ===== src/Lib.antt =====
-- Verification library of Polymarket-Tickscope: recorders of market data and a trading bot.
--
-- The parts and how they interact, with the files that model them:
--   * include/polymarket/memory/RingBuffer.hpp is Ring.antt. The feed handler's I/O thread calls
--     `try_produce`, the tickerplant thread `consume`; each call is one step on the slots and the two
--     64-bit indices. Ring/Threads.antt has `produce`, called by many threads, one atomic access a
--     step. Ring/Queue.antt is the bounded queue that Ring/Refine.antt compares it with.
--   * src/feedhandler/Feedhandler.cpp is Feedhandler.antt: from a JSON message to ticks on the queue.
--     Feedhandler/Work.antt is the same message as the list of its elements, for a thread that can be
--     interrupted between two of them.
--   * src/tickerplant/Tickerplant.cpp is Tickerplant.antt: `round` is one turn of the loop of `run`,
--     `drain` the loop after it. It reads any queue that meets `TickQueue`; Tickerplant/Source.antt
--     shows that the ring does. Tickerplant/Thread.antt is its thread from `start` to the join.
--   * include/polymarket/rdb/OrderBook.hpp is Rdb.antt: the top-of-book table that the tickerplant
--     writes.
--   * src/coinbase is Coinbase.antt: the BTC feed (`on_message`), its buffered journal (`write`), and
--     in Coinbase/Session.antt the connection and the recorder's `main`.
--   * src/bot is Bot.antt: FeedHandler.cpp is Bot/Feed.antt, BookState.cpp Bot/Books.antt,
--     OrderGateway.cpp Bot/Orders.antt, StrategyEngine.hpp Bot/Strategy.antt. Bot/Strategy/Threads.antt
--     interleaves the strategy's two threads between their calls of the gateway.
--   * src/gateway/MarketDiscovery.cpp is Gateway/Discovery.antt (`fetch_active_tokens`),
--     Gateway/Metadata.antt (the metadata CSV) and Gateway/Filter.antt (the question filter).
--   * src/gateway/WebSocketClient.cpp is Gateway/Subscription.antt, the message, and
--     Gateway/Client.antt, the state that the I/O thread, the watchdog and `subscribe` share.
--   * src/bot/BotDiscovery.cpp is Bot/Discovery.antt: one market, the two readers of a page (Pages),
--     the parallel scan and the tail poll (Scan). src/bot/main.cpp is Bot/Main.antt: `startup` scans,
--     `poll` is a round of the main loop; Bot/Main/Session.antt is its `main` from the command line
--     and the secrets to the end.
--   * src/harvester/main.cpp is Harvester.antt: it boots from a discovery, and each cycle of
--     rediscovery appends to the metadata, subscribes on the client and applies retention.
--     Harvester/Capture.antt puts the client's threads, the feed handler and the tickerplant together;
--     Harvester/Life.antt is how a signal ends the process, with the settings and the sleep.
--   * include/polymarket/core is Core.antt; Base.antt has what all share.
--
-- Conventions: a function on a state returns the new state, a method that can fail an option. A
-- machine integer keeps its wrap-around (`% word_mod` is 64 bits). `double` is the record
-- `Double` of a type with operations; where a theorem needs sums without rounding it asks for
-- `IsExact`, where it compares amounts for `IsOrdered`, and Tests/Fixed.antt is an instance of
-- both. simdjson is the record `Json`. The clock, whether a file opens, and what an HTTP request
-- answers are arguments; the text of a time in a file name is a parameter. A method that holds a
-- mutex throughout is one step.
--
-- Fuel: `drain` has it, for the loop `while (ring_.consume(tick))`; any fuel above the number of
-- ticks that wait is enough, as Tickerplant/Drain.antt proves. `lines` has it, for the loop over
-- fgets; it gets the length of the file, and each line takes at least one byte.
--
-- `scan_from` has fuel for one round more than there are pages; scan_all-Learns proves that it
-- returns. `to_string` has the number itself, which is above its count of digits.
--
-- Not modelled: logging, the text of log lines and the bot's status file, pinning a thread to a core,
-- fflush, the text of a date (gmtime, snprintf), and the weak memory order of the atomics.
pub mod Base
pub mod Ring
pub mod Core
pub mod Rdb
pub mod Bot
pub mod Tickerplant
pub mod Coinbase
pub mod Feedhandler
pub mod Gateway
pub mod Harvester
pub mod Tests
