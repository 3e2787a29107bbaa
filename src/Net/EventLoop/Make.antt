-- ===== src/Net/EventLoop/Make.antt =====
-- What the constructor of a loop makes.
use neconet.Net.Channel.{Channel}
use neconet.Net.Poller.{Poller}
use neconet.Net.EventLoop.{EventLoop}
