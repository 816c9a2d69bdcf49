-- ===== src/Examples.antt =====
-- Concrete inputs of the program's parts, and the theorems at these inputs.
pub mod Tokens
pub mod Addresses
pub mod Packets
pub mod Firewall
pub mod Parsing
pub mod Routing
pub mod Network
pub mod Hosts
pub mod Udp
pub mod Serial
pub mod Shared
pub mod Threads
pub mod Config
pub mod Trees
pub mod Sockets
