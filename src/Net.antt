-- ===== src/Net.antt =====
-- The folder net: buffers, channels, the poller, timers, the event loop and its thread, sockets, addresses and the TCP classes.
pub mod Word
pub mod Buffer
pub mod Channel
pub mod Poller
pub mod Connection
pub mod Timers
pub mod Loop
pub mod Server
pub mod EventLoop
pub mod LoopThread
pub mod Address
pub mod Sockets
pub mod Acceptor
