-- ===== src/Lib.antt =====
-- MyTinyHttpd, an HTTP server over a reactor network library in C++, in the parts that carry its
-- logic: the bytes of a connection, the request parser, the response and the server's answers, and
-- the timers, idle timing, loops and connector around them; its log; and its dates and time zones.
--
-- A connection (mytinyhttpd/net/tcp_connnection.cc) reads from its socket into one buffer and sends
-- through another (mytinyhttpd/net/buffer.cc). Each arrival calls HttpServer::OnMessage
-- (mytinyhttpd/http/http_server.cc), which runs the parser of the connection's context
-- (mytinyhttpd/http/http_context.cc) on the input buffer. When a request (http_request.h) is
-- complete, OnRequest has the callback write a response (http_response.cc), sends its bytes, and
-- shuts the connection down if the response closes.
--
-- Prelude: Boolean tests, lists over native numbers, outcomes that may be a fault (a failed
--   assertion, an access out of range, fuel that ran out), searching and comparing bytes, strtol.
-- Net/Buffer: mytinyhttpd/net/buffer.h, buffer.cc and endian.h. A record of the vector's bytes, its
--   capacity and the two indices; one function per operation under the source's name. `size_t`
--   wraps at 2 ^ 64. What boost's vector decides (capacities, bytes left by a resize) is the
--   parameter `Allocation`. Assertions are kept, as the default build type has them.
-- Net/TcpConnection: mytinyhttpd/net/tcp_connnection.h and tcp_connnection.cc, run by the thread of
--   the connection's loop; the socket's answers are arguments, and the bytes that it took are
--   recorded.
-- Http/Request, Http/Context: mytinyhttpd/http/http_request.h, http_context.h and http_context.cc.
--   The parser's loop takes fuel, one more round than there are readable bytes; that this is enough
--   is proved.
-- Http/Response: mytinyhttpd/http/http_response.h and http_response.cc, over the buffer.
-- Http/Server: mytinyhttpd/http/http_server.h and http_server.cc, with the file system as a parameter.
-- Net/ThreadPool: mytinyhttpd/net/event_loop_thread_pool.h and event_loop_thread_pool.cc; a loop is
--   a number.
-- Net/TimingList: mytinyhttpd/net/timing_list.h and timing_list.cc; an age in seconds is compared
--   exactly, where the source divides doubles.
-- Net/TimingWheel: mytinyhttpd/net/timing_wheel.h and timing_wheel.cc; the ring is a list of buckets,
--   and the difference of two of boost's iterators is a parameter.
-- Net/TimerQueue: mytinyhttpd/net/timer_queue.h, timer_queue.cc, timer.h and timer.cc, over a store
--   of timers; the two sets are lists in order.
-- Net/Connector: mytinyhttpd/net/connector.h and connector.cc, with the system's answers as
--   arguments.
-- Net/Channel: mytinyhttpd/net/channel.h, channel.cc, epoll_poller.cc and poller.cc; the map of
--   channels and epoll's table are functions of the descriptor.
-- Net/EventLoop: mytinyhttpd/net/event_loop.h and event_loop.cc, as small steps of the loop's thread
--   and of other threads, from the making of the loop on through one call of Loop; a functor is what
--   it asks of the loop while it runs, and the poller's answer is an argument.
-- Log/FixedBuffer, Log/LogStream: mytinyhttpd/base/log_stream.h and log_stream.cc, over the array of
--   the buffer, so that a write outside it is a fault. The loop of a conversion takes 64 rounds,
--   more than a number of 64 bits has digits. What snprintf prints of a double is an argument.
-- Log/AsyncLogging: mytinyhttpd/base/async_logging.h and async_logging.cc, as steps of the threads
--   that append and of the one that writes; what a new buffer finds in its memory is a parameter,
--   and the log file is the list of its calls.
-- Log/LogFile: mytinyhttpd/base/log_file.h and log_file.cc with AppendFile of mytinyhttpd/utils/file.h
--   and file.cc, for such calls; each call has what the clock, fopen and fwrite answer.
-- Utils/Date, Utils/TimeZone, Utils/Transitions, Utils/ZoneFile: mytinyhttpd/utils/date.h, date.cc,
--   timezone.h, timezone.cc and the class File of file.h and file.cc; a file is its bytes. In date.cc
--   an int that a number does not fit is a fault.
-- Tests: concrete inputs at which the theorems apply.
--
-- Not modelled: the threads that run loops, the poller over poll, the server's map of connections,
-- the queues and the printing of floating-point numbers; the JSON reader of the configuration and
-- boost, which are not part of the repository; the system calls themselves.
pub mod Prelude
pub mod Net
pub mod Log
pub mod Utils
pub mod Http
pub mod Tests
