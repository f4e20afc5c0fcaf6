-- ===== src/Gateway.antt =====
-- src/gateway: the metadata file of MarketDiscovery.cpp and its filter (Gateway/Metadata.antt,
-- Gateway/Filter.antt), and WebSocketClient.cpp (Gateway/Subscription.antt, Gateway/Client.antt).
pub mod Metadata
pub mod Filter
pub mod Subscription
pub mod Client
pub mod Discovery
