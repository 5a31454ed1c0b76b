-- ===== src/Fabric/Consumer.antt =====
-- crates/br-util-nats-fabric/src/consumer: the loop that reads a durable consumer, and how it
-- recovers from errors of the stream.
pub mod Backoff
pub mod Recovery
pub mod Run
