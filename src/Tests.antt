-- ===== src/Tests.antt =====
-- Runs of the modelled functions at concrete inputs, and the theorems at inputs that meet their
-- hypotheses.
pub mod Buffers
pub mod Lists
pub mod Transport
pub mod Timers
pub mod Memory
pub mod Keys
pub mod Addr
pub mod Pairing
pub mod Fragments
pub mod Channels
pub mod Advertising
pub mod Connections
pub mod Pool
pub mod Packets
