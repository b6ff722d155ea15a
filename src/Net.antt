-- ===== src/Net.antt =====
-- The network library.
pub mod Buffer
pub mod TcpConnection
pub mod ThreadPool
pub mod TimingList
pub mod TimingWheel
pub mod Channel
pub mod Connector
pub mod TimerQueue
pub mod EventLoop
