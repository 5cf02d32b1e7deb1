-- ===== src/Lib.antt =====
-- Verification of the distributed cache system (a master, cache servers and clients, in C++).
--
-- The parts and the files that model them:
-- - CacheLru: the cache server's table, cache/src/LRU_cache.hpp (`LRU_Cache`). The doubly linked
--   list lives in an explicit memory; CacheLru.Spec is the list of entries that it stands for.
-- - LocalLru: the client's table of where each key lives, Client/include/lru.hpp (`lru_cache`).
-- - Ring: the consistent hash ring, cache/src/ConsistentHash.cpp (`ConsistentHash`), which the
--   master and the cache servers share.
-- - Client: the handlers of the client's process, Client/src/client.cpp (`Client`). Client.Handlers
--   has those of the messages of the child process, the master and the cache servers, Client.Child
--   the child process itself (with `strRand` of Client/src/tools.cpp), Client.Reply what the client
--   and a cache server do together, Client.Resend what a request and its timer do.
-- - Timers: the software timers behind one signal, Client/src/timer.cpp (`Timer`).
-- - Master: the master's members and the handlers of its threads, master/mastertry/master.cpp
--   (`Master`): Master.Heartbeat (registration and pairing), Master.Failure (the loss of a cache
--   server), Master.Shrink; Master.Events has sequences of what the threads do.
-- - CacheServer: the cache server, cache/src/cache.cpp (`Cache`): its task for a client's message and
--   its reactions to the master's; CacheServer.Spec is what it promises a client,
--   CacheServer.Startup its heartbeat and the master's first reply, CacheServer.Replica the exchange
--   between a primary and its replica, CacheServer.Handover the keys that a leaving server sends to
--   the others.
-- - Deployment: a client, the master and the cache servers together; Deployment.Round follows one
--   request through all of them, Deployment.Recovery one whose cache server is lost meanwhile.
-- - ThreadPool: the cache server's thread pool, cache/src/threadPool.hpp (`ThreadPool`), as steps.
-- - Text: texts as lists of bytes. Common: what all parts use. Witnesses: concrete inputs.
--
-- The client, the master and the cache servers exchange texts whose fields a `#` separates: the
-- client asks the master for the server of a key, stores the answer in its table and asks that
-- server; the master keeps the ring and tells the cache servers who comes and goes. A cache server
-- that is told to leave computes the ring for its own list of the others and sends them its keys.
--
-- Fuel and bounds: `decimal` has more fuel than the number has digits; the hash and the counters
-- of timers and threads wrap at 32 bits. `GetServer` faults for a hash above every point, and so
-- does a copy of a text that does not fit in a buffer of BUF_SIZE bytes, where the cache server
-- replies to a client or hands over a key; the other texts are taken to fit in their buffers.
-- Code that reads freed memory, a null pointer or the end of a container, and code that throws
-- with no handler, is a fault of `Result`.
--
-- Not modelled: the thread of `replica_chat`, which `Start` has commented out; sockets, epoll,
-- signals, logging and printing, the command line, the loops that only wait, the keys that the
-- child process reads from a file, and the test programs. The random numbers of the standard
-- library and the addresses that `new` returns are parameters.
pub mod Common
pub mod CacheLru
pub mod LocalLru
pub mod Text
pub mod Ring
pub mod Timers
pub mod Client
pub mod Master
pub mod Deployment
pub mod ThreadPool
pub mod CacheServer
mod Witnesses
