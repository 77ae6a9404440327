-- ===== src/Lib.antt =====
-- Verification of learncc: a network library, memory pools, a pool of threads and servers on top.
--
-- The program's parts. `mmuduo` is a library of event loops: a `tcp_server` accepts connections and gives
-- each to a loop of its pool; a loop waits in `epoll_poller` for the descriptors of its `channel`s and
-- calls their handlers, which are those of `tcp_connection`, `connector` and the acceptor; other threads
-- reach a loop through functors that it calls between two waits. A connection reads into a `buffer` and
-- writes from one. `memory_pool` has an allocator in the manner of nginx (`ngx_mempool`) and one with
-- size classes and three levels of caches. `threadpool` runs tasks on a pool of threads. The gate
-- server, the chat server and the status server are services that use Boost, gRPC, redis and MySQL.
--
-- Which file models what:
--   Mmuduo/Buffer          inc/mmuduo/buffer.h, src/mmuduo/buffer.cc: `Buffer` is the array with its
--                          two indices; `readv` and `write` are arguments of `read_fd` and `write_fd`.
--   Mmuduo/Channel         inc/mmuduo/channel.h, src/mmuduo/channel.cc: event masks and dispatch.
--   Mmuduo/Poller          src/mmuduo/epoll_poller.cc, poller.cc: registration; `epoll_ctl` is the
--                          interface `Epoll` with what its manual promises.
--   Mmuduo/Connection      src/mmuduo/tcp_connection.cc: each operation gives the connection and the
--                          effects in their order; the result of `write` is an argument.
--   Mmuduo/EventLoop       src/mmuduo/event_loop.cc: functors and the event descriptor; Steps has the
--                          loop's thread and others as a step relation between atomic parts.
--   Mmuduo/Connector       src/mmuduo/connector.cc: the states of an attempt to connect.
--   Mmuduo/Client          src/mmuduo/tcp_client.cc: the connector and the connection of a client, a turn of
--                          their loop at a time.
--   Mmuduo/Server          src/mmuduo/tcp_server.cc, eventloop_threadpool.cc: loops and the table of
--                          connections.
--   MemoryPool/SizeClass   inc/memory_pool/comm.h, `size_class`: rounding, indices, transfer sizes.
--   MemoryPool/NgxPool     src/memory_pool/ngx_mempool.cc: blocks, large requests, reset, destruction;
--                          addresses are numbers, and what `malloc` returns is an argument.
--   MemoryPool/PageCache   src/memory_pool/page_cache.cc: spans of pages, cut and merged; pages are
--                          numbers, and what `mmap` returns is an argument; so is the count of uses that
--                          a new span finds in its memory.
--   MemoryPool/BlockCache  src/memory_pool/central_cache.cc, thread_cache.cc: spans cut into blocks and a
--                          thread's list of them, for one block size.
--   ThreadPool             inc/threadpool/thrdp.h: Steps has threads, callers and the destructor.
--   Containers/HashTable   inc/public/ts_hash_tbl.h: a table of buckets.
--   Containers/WaitQueue, LinkedQueue  inc/public/ts_queue.h: the queue under one lock, and the one with a
--                          lock at each end, an access at a time. In the first one a copy may throw.
--   Containers/CountedStack  inc/public/ts_stack.h: `ref_count_stack`, a turn of a thread at a time.
--   GateServer/Url, Query  src/gateserver/http_conn.cc: coding of URLs and `parse_getparam`.
--   GateServer/Dao         src/gateserver/mysql_dao.cc, inc/gateserver/mysql_dao.h: the calls of the
--                          database with its pool of connections; MySQL keeps a list of rows.
--   GateServer/Accounts    src/gateserver/logic_system.cc: registration, reset and login.
--   Arpc                   src/arpc/arpc_channel.cc, arpc_server.cc: frames, a call and its response; protobuf
--                          is the interface `Proto`, and the server reads from the buffer of mmuduo.
--   ChatServer/MsgNode, Session  src/chat_server/msg_node.cc, csession.cc: nodes and the reading of messages;
--                          what `async_read_some` delivers is an argument.
--   ChatServer/SendQueue   src/chat_server/csession.cc: the queue of a session, as a step relation.
--   ChatServer/LogicQueue  src/chat_server/logic_system.cc: `post_msg` and `deal_msg`, as a step relation.
--   ChatServer/Users       src/chat_server/logic_system.cc, chat_service_impl.cc: users in redis and MySQL,
--                          and the search; jsoncpp is the interface `Json`.
--   ChatServer/Handlers    src/chat_server/logic_system.cc, chat_service_impl.cc, cserver.cc, user_mgr.cc:
--                          the other handlers over several servers; a handler gives its effects. The
--                          call of another server (chat_grpc_client.cc) may be lost. Requests are taken
--                          as read, without what jsoncpp throws.
--   ChatServer/Dao         src/chat_server/mysql_dao.cc, inc/chat_server/mysql_dao.h: friends and applications,
--                          with connections that may hold back changes; MySQL is the interface `Sql`.
--   Prelude                tests, lists, bytes, 64-bit words and bits that the others share.
--   StatusServer           src/status_server/status_service_impl.cc: the choice of a chat server and
--                          the login; redis is a store.
-- A module named for what it proves stands below its component (Laws, Io, Stream, Bounds, Wakeup);
-- Tests holds runs at concrete inputs.
--
-- Numbers. A `size_t` is a natural number below 2^64 with the wrap-around written out (Prelude/Words).
-- Counters of threads and connections are numbers without a bound, as are both counts of
-- `ref_count_stack`; `id_` of a channel wraps around at 2^32. Fuel occurs in
-- `query_loop`, one more than the length of the query, since each round takes a `&` off it; in `carve`,
-- the length of the span, since each round moves on by a byte at least; and in the two loops that merge
-- spans, 129 rounds, since each makes a span longer that stays below 129 pages.
--
-- Not modelled: the acceptor, waiting in `poll`, the request for a code, the queue without
-- locks and the lists of inc/public, orders of memory weaker than sequential consistency, and the older
-- pool of src/threadpool, most of which later work may add; generated protobuf code, thin wrappers of system
-- calls, logging, examples and the JavaScript of src/verify_server, which have no logic of their own.
pub mod Arpc
pub mod ChatServer
pub mod Containers
pub mod GateServer
pub mod MemoryPool
pub mod Mmuduo
pub mod Prelude
pub mod StatusServer
pub mod ThreadPool
