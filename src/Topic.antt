-- ===== src/Topic.antt =====
-- mqtt/mqtt_topic.c: the topic tree of the broker.
pub mod Split
pub mod Tree
pub mod Match
pub mod Retain
pub mod Subscribe
pub mod History
pub mod Reach
mod Tests
