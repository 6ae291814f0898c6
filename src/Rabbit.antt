-- ===== src/Rabbit.antt =====
-- The RabbitMQ library: rabbitMQ-pool/src.
pub mod Connection
pub mod Channel
pub mod Message
pub mod Wire
pub mod Broker
pub mod Topology
pub mod Asked
pub mod Effects
pub mod ChannelPool
pub mod Producer
pub mod Consumer
pub mod Consumed
pub mod Rotation
pub mod Handles
pub mod Custody
