-- ===== src/Webcam.antt =====
-- The webcam demo, demos/webcam: `Socket` is the kernel's side of a connection, `Tcp` is
-- gui/src/tcp_connection.c.
pub mod Socket
pub mod Tcp
pub mod Connection
pub mod Digits
pub mod Ethernet
pub mod Header
pub mod Filter
pub mod Channels
pub mod Pipeline
pub mod Arguments
pub mod Board
pub mod Viewer
pub mod Stream
