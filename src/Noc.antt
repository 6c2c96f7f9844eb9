-- ===== src/Noc.antt =====
-- The packet interface of the network on chip, projects/noc_test/linux/hwSwIf.
pub mod Packet
pub mod PacketList
pub mod Ring
pub mod Setup
pub mod Shutdown
pub mod Dummy
pub mod Threads
pub mod Wire
