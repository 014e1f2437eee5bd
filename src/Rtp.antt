-- ===== src/Rtp.antt =====
-- lab2-rtp-Heccc257/Lab2-RTP-Test/src: reliable transport over an unreliable datagram channel.
pub mod Crc
pub mod Packet
pub mod Wire
pub mod Receiver
pub mod Sender
pub mod Connect
pub mod Channel
mod Tests
