-- ===== src/Reactor.antt =====
-- The reactor of Network/src: Channel, Poller, EventLoop, TcpConnection.
pub mod Channel
pub mod Poller
pub mod Buffer
pub mod World
pub mod EventLoop
pub mod TcpConnection
pub mod TcpServer
pub mod MyServer
mod Fixtures
mod Tests
