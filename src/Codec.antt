-- ===== src/Codec.antt =====
-- src/netlink/codec.rs: sequence numbers, attributes, messages and acknowledgements.
pub mod Seq
pub mod Nla
pub mod Message
pub mod Ack
