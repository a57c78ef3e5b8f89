-- ===== src/Net.antt =====
-- src/net: the sockets under the network manager.
pub mod Manager
pub mod TcpSocket
pub mod UdpSocket
pub mod GameSocket
pub mod Dispatch
