-- ===== src/Packets.antt =====
-- The packet layers: include/Packets and src/Packets.
pub mod Types
pub mod Wire
pub mod Dispatchable
pub mod Avp
pub mod Eth
pub mod Ip
pub mod Udp
pub mod Tcp
pub mod Radius
pub mod Texts
pub mod Samples
mod Tests
