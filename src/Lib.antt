-- ===== src/Lib.antt =====
-- neconet, a small C++ library for TCP servers: one event loop per thread over poll(2).
--
-- How the program works. A CChannel is one descriptor with the events that it waits for and its
-- callbacks. CPoller keeps the array of `struct pollfd` for all channels of a loop and calls poll.
-- CEventLoop polls, lets the active channels call back, and runs the functors that other threads left
-- with it. CTimerQueue turns timers into one timer descriptor. CTcpConnection sits on a channel, with a
-- CBuffer for what was received and one for what could not be written at once. CAcceptor listens and hands new
-- descriptors to CTcpServer, which keeps the connections by name. CEventLoopThread runs a loop in a CThread of
-- its own; threads wait for each other with CMutexLock, CCondition and CCountDownLatch.
--
-- Which file models what.
--   Prelude.antt         shared names; lists and slices with native lengths; integers; `Outcome`, a value
--                        or the fault that stops the program (a failed assert, an access out of bounds, a
--                        dereferenced end iterator, a length error, a signed overflow, a missing return, an
--                        unlock by the wrong thread, an abort)
--   Base/Text.antt       numbers as text, the way snprintf writes them for the code
--   Base/Mutex.antt      base/CMutex.h, base/CMutex.cpp, base/CCondition.h, base/CCondition.cpp: a mutex that
--                        knows its holder, and what a wait does to it
--   Base/Latch.antt      base/CCountDownLatch.h and base/CCountDownLatch.cpp: any number of threads in Wait
--                        and CountDown, each lock, sleep, wakeup and unlock a step of its own
--   Base/Atomic.antt     base/CAtomic.h: integers in two's complement of any width
--   Base/Current.antt    base/CurrentThread.h and base/CurrentThread.cpp: the thread's own variables, Tid,
--                        SleepUsec, StackTrace
--   Base/Exception.antt  base/CException.h and base/CException.cpp: a reason and a stack text
--   Base/Thread.antt     base/CThread.h, base/CThread.cpp, base/CThreadData.h, base/CThreadData.cpp: the thread
--                        object, how a new thread hands over its id, how a thread ends
--   Base/Timestamp.antt  base/CTimestamp.h and base/CTimestamp.cpp: microseconds as an integer in int64_t, and
--                        their texts
--   Net/Word.antt        size_t, which wraps at 2^64
--   Net/Buffer.antt      net/CBuffer.h and net/CBuffer.cpp: Append, EnsureWriteableBytes, __MakeSpace
--                        (make_space and compact), Retrieve, RetrieveUtil, RetrieveAsString, Prepend,
--                        Shrink, ReadFd and the rest; a pointer into the vector is its offset
--   Net/Channel.antt     net/CChannel.h and net/CChannel.cpp: event sets bit by bit, HandleEvent
--   Net/Poller.antt      net/CPoller.h and net/CPoller.cpp: UpdateChannel (add_entry, change_entry),
--                        RemoveChannel (drop_entry), Poll, __FillActiveChannels; a pointer to a channel is
--                        a number on a heap, and a channel's operations change the heap and the poller
--   Net/Connection.antt  net/CTcpConnection.h and net/CTcpConnection.cpp: the states, all handlers, Send,
--                        ShutDown and the tasks that other threads leave; `step` and `run` are events, one
--                        at a time and in sequence; Net/Connection/Protocol.antt has the state machine that
--                        they follow
--   Net/Timers.antt      net/CTimer.h, net/CTimer.cpp, net/CTimerQueue.h and net/CTimerQueue.cpp: the
--                        ordered set, __GetExpired, __ResetTimers, __InsertTimer, HowMuchTimeFromNow
--   Net/Loop.antt        net/CEventLoop.h and net/CEventLoop.cpp: QueueInLoop, QuitLoop, Wakeup, StartLoop
--                        and __DoPendingFunctors as steps of the loop's thread and of others, which
--                        interleave in any order
--   Net/EventLoop.antt   net/CEventLoop.h and net/CEventLoop.cpp: the constructor and destructor, RunInLoop,
--                        RunAt, RunAfter, RunEvery, and which thread may do what
--   Net/LoopThread.antt  net/CEventLoopThread.h and net/CEventLoopThread.cpp: StartLoop, __ThreadFunc and the
--                        destructor as steps of two threads, and QuitLoop of anybody else who knows the
--                        loop
--   Net/Address.antt     net/CInetAddress.h, net/CInetAddress.cpp, net/SocketsOps.h: byte orders and addresses
--   Net/Sockets.antt     net/CSocket.h, net/CSocket.cpp, net/SocketsOps.cpp: the calls on a socket
--   Net/Acceptor.antt    net/CAcceptor.h and net/CAcceptor.cpp: the listening socket
--   Net/Server.antt      net/CTcpServer.h and net/CTcpServer.cpp: the map of connections by their names, which
--                        share one poller; __NewConnection, __RemoveConnection, the ConnectDestroyed functor that
--                        it leaves with the loop, and __HandleRead of the acceptor
--   Net/Server/Run.antt  the same with net/CTcpConnection.cpp and net/CChannel.cpp: any number of connections at
--                        work, their events with the close callback (on_event), HandleEvent of a connection
--                        (dispatch), the ConnectDestroyed functors (destroy_all), and all of it in any order
--                        (Step, Reachable)
--   Main.antt            main.cpp: its callbacks and the set-up of its server
-- Each has its theorems in a folder of its name, and tests and examples in the Tests module there.
--
-- Threads. Each of Latch, Loop and LoopThread has a data type of steps, one for every piece of a thread's
-- code that another thread can see happen, and a data type of the states reached in any order of them. A
-- sleeping thread may wake up without a notification.
--
-- Bounds. The only fuel is that of the digits of a number, where the number itself is enough, since it is
-- divided by ten each time; every loop of the code runs over a list. size_t sums and differences wrap;
-- int64_t sums that leave the range are a fault, as they are undefined. The largest vector has 2^63 - 1
-- bytes. Indices of poll entries, descriptors and the counter of a latch are not bounded.
--
-- What is a parameter: the answers of the system calls and the clock, which are arguments; inet_pton,
-- inet_ntop, gmtime_r and the demangler, which are functions; what poll reports follows its documentation
-- (`PollContract`); what a timer's callback does to the queue. A delay given as a floating-point number comes
-- in as the microseconds or nanoseconds that it is cut to.
--
-- What is not modelled: the casts of base/Types.h, the classes without members and the callback types, which
-- hold no state; test.cpp and test.h, where all but an empty function is commented out; object lifetimes
-- beyond the connections and timers; failures of the pthread calls inside MCHECK; what is printed, but for
-- main.cpp. The check of the calling thread only prints, so it is left out.
pub mod Prelude
pub mod Base
pub mod Net
pub mod Main
