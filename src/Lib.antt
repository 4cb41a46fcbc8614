-- ===== src/Lib.antt =====
-- A verification library for the system programs of this repository.
--
-- The programs are small servers, clients and queues. Modelled are the epoll echo server
-- network/tcp_echo/server_epollout_handle.cpp with its ring buffer, event loop and acceptor, the
-- responding connection of network/tcp_echo/server_epollout_response.cpp, the pushing
-- connections of network/tcp_echo/server_epollout.cpp, server_epollout_simple.cpp and
-- server_epoll_et.cpp, the poll server network/tcp_echo/server_poll_handle.cpp, the loop per
-- thread of network/tcp_echo/server_epoll_bench.cpp, the objects of
-- network/tcp_echo/server_epoll_handle.cpp, the thread per connection of
-- network/tcp_echo/server.cpp and client.cpp, the full transfers of network/tcp_echo/util.cpp,
-- the connection of network/tcp_echo/client_epoll_verify.cpp, the connection and the latencies
-- of network/tcp_echo/client_epoll_bench.cpp, the hash maps of module/proc_entry_hashmap1 and
-- module/proc_entry_hashmap2, the blocking queues of pthread/blocking_queue, and the bounded
-- queues in shared memory of
-- process/process_communication/bounded_blocking_queue_semaphore_mmap_unnamed1 and
-- bounded_blocking_queue_semaphore_mmap_unnamed0.
--
-- How the parts interact: EventLoop::run takes a batch of events from epoll_wait, each with the
-- address of an EpollHandler, calls its `handle`, and deletes the object if the call returns -1.
-- Acceptor::handle accepts a connection and puts a new Connection on the heap.
-- Connection::handle sends what waits in the RingBuffer on EPOLLOUT, and receives into it on
-- EPOLLIN. The poll server does the same over the table of its Poller, which the connections
-- enter and leave. The verifying and the measuring client call send_full of util.cpp, as
-- server.cpp and client.cpp do, and the measuring client pushes a sample into its LatencyTracer
-- for each packet that comes back. The file operations of the kernel modules call their map.
-- Connection::handle of server_epoll_bench.cpp and of server_epoll_handle.cpp is one text, and
-- so is one definition. The threads and processes of the three queues meet only in the queue and
-- its semaphores.
--
-- Files and code:
--   Prelude        Boolean tests, lists, and the conversion of a 64-bit word to int.
--   Kernel         send, sendmsg, recv, recvmsg, epoll_ctl, accept4 and close, as an interface with
--                  the bounds that their manual pages give on the counts returned. The
--                  theorems hold for every implementation that meets their hypotheses (IsFinite,
--                  IsEager). Kernel/Scripted implements it for runs.
--   Ring           class RingBuffer: get_blank_size, get_exist_size, get_blank_iovec,
--                  get_exist_iovec, add_blank, add_exist; the positions are 64-bit words that wrap.
--                  Ring/Memory models memcpy and iovecs, Ring/Bounds the sizes, Ring/Fifo the
--                  contents as a queue of bytes.
--   Echo           class Connection of server_epollout_handle.cpp: the constructor, recv_buf,
--                  recv_buf_native, send_buf, send_buf_native, handle_read, handle_write, handle.
--                  Echo/Calls has its state, Echo/Control what a control call leaves registered,
--                  for the classes below too; Receive, Send and Handle prove.
--   Loop           EventLoop::run on one batch of events, class Acceptor, and ~Connection; the
--                  objects are a map from addresses. The acceptor is a local variable of `main`:
--                  its deletion is undefined behaviour, and ends the model.
--   Response       class Connection of server_epollout_response.cpp: recv_buf, recv_request,
--                  send_response, handle; Stream says what is owed, the others prove.
--   Push           class Connection of server_epollout.cpp (send_buf, handle_recv, handle_send,
--                  handle); Push/Send, Receive and Handle prove. Push/Server has the map of
--                  connections, handle_accept, close_conn and the batch of `loop`, over the class
--                  of the connections (Pusher), and Push/Events proves from what such a class
--                  promises (IsWorking); Push/Pushing puts the class of server_epollout.cpp in it.
--   Push/Single    class Connection of server_epollout_simple.cpp: send_buf, handle_send, handle.
--   Push/Edge      class Connection of server_epoll_et.cpp: send_buf, handle_recv, handle_send,
--                  handle.
--   Poller         class Poller of server_poll_handle.cpp: add_fd and remove_fd on the table for
--                  poll(2); Poller/Table says what one call changes, Poller/Slots what many do.
--                  Poller/Sweep has its class Connection, handle_accept and a pass of `loop`;
--                  Poller/Sweep/Entries, Objects and Serves prove.
--   PerThread      server_epoll_bench.cpp: its classes Connection, EventLoop and Acceptor, and the
--                  threads in turn; Places has lemmas on lists, Watched proves of the batches of
--                  events, Owned of the descriptors.
--   Transfer       send_full and recv_full of network/tcp_echo/util.cpp; Transfer/Full proves.
--   Client         class Connection of client_epoll_verify.cpp: send, recv, handle; Client/Words
--                  proves of the packets, Client/Checks of a packet that is sent and comes back.
--   Latency        class LatencyTracer and get_p99 of client_epoll_bench.cpp; Latency/Report and
--                  Latency/Percentile prove. A report is taken between two pushes, not during one.
--   Bench          class Connection of client_epoll_bench.cpp: send, recv, handle; gettimeofday is a
--                  parameter. Bench/Echo proves of a packet that is sent and comes back.
--   Handles        server_epoll_handle.cpp: its class Connection, handle_accept and the batch of events in
--                  `loop`; Handles/Batches proves.
--   PerConnection  server.cpp and client.cpp: both functions `worker`, and how `main` of the server
--                  stores the descriptors; Echoes, Requests and Accepts prove.
--   HashMap        pe_map_create, pe_entry_hash and pe_map_get of both kernel modules;
--                  HashMap/Locked has pe_map_insert, pe_map_remove and pe_map_flush of
--                  proc_entry_hashmap1.c, HashMap/Rcu insertion and removal of
--                  proc_entry_hashmap2.c, and HashMap/Device entry_read and entry_write. The kmem_cache is the interface Slab.
--                  Chain and Table have the lemmas, Refine and Memory prove. HashMap/Worker has
--                  the worker of proc_entry_hashmap2's example/main1.cpp, which calls them.
--   Threads        weights summed over the threads of a state, which the three queues below
--                  share.
--   ThreadQueue    class BlockingQueue of pthread/blocking_queue, put and take, and the producers and
--                  consumers of its main.cpp as a step relation over what `not_empty` is (Signal).
--                  Counts, Delivery and Finish say what every step keeps, Progress which thread can go
--                  on, Bound how many steps there are; Condvar and Semaphore are the two classes.
--   BoundedQueue   struct BoundedBlockingQueue and bbq_init, bbq_put, bbq_take, bbq_empty as a step
--                  relation on the queue and the places of the processes; Invariant, Slots and
--                  Fifo prove.
--   FixedQueue     main.cpp of bounded_blocking_queue_semaphore_mmap_unnamed0: producer_proc and
--                  consumer_proc as a step relation; Counts, Ids and Rest say what every step keeps,
--                  Ends proves.
--   Tests          runs at concrete inputs.
--
-- State and calls: a method of a connection is a function from a state, which holds the members of
-- the class, the kernel's world, and histories, to its result and the next state. The histories are
-- the bytes received and sent, the events that the last successful control call registered, and
-- whether the last control call succeeded. A result of -1 is a value of its own.
--
-- Bounds and fuel: the size of a response is a parameter, so that the models run on small inputs; a
-- ring's block has `max_pkt_size` bytes, as in the source. `send_response` and the loop of the pushing
-- `send_buf` run on fuel one more than the bytes that are pending: a round that is not the last sends
-- a byte. The loops of `send_full` and `recv_full` run on one more than the length. The pushing
-- `handle_recv` takes its fuel as an argument, and its theorems ask for more of it than the clients
-- may still send; so does `worker` of server.cpp. The lengths of the queues, `item_num` and `max_conns`
-- are parameters. `recv_request` gives `max_pkt_size / 8` rounds, more than the requests that a ring
-- can hold. The pass of the poll server visits at most `max_fds` entries, and has fuel for one more.
-- The outer loop of `report` has one more than the batches that wait. The counters `num` of the hash
-- maps' buckets, and `f` and `p` of the latencies, are numbers without a bound, which 2 ^ 63 calls
-- would reach. The positions `f` and `p` of the bounded queues are numbers without a bound: the models
-- are the code as long as fewer than 2 ^ 31 items pass through.
--
-- Not modelled: what is printed; argument parsing, sockets' set-up and the endless outer loops of
-- the mains; pe_map_flush of proc_entry_hashmap2.c, which works on copies of list heads whose first
-- nodes point back to the live buckets, one lock at a time; the rates and sums in double of the clients; the readers of proc_entry_hashmap2.c that run
-- during a call; the setting up and removal of the kernel modules; the other servers and clients of
-- network/; process_management; and the C samples of c_lang/ and file/, of which interpose.c is a copy
-- of another project's code.
pub mod Prelude
pub mod Kernel
pub mod Ring
pub mod Echo
pub mod Loop
pub mod Response
pub mod Push
pub mod Poller
pub mod Transfer
pub mod Handles
pub mod PerConnection
pub mod HashMap
pub mod Client
pub mod Latency
pub mod Bench
pub mod PerThread
pub mod Threads
pub mod ThreadQueue
pub mod BoundedQueue
pub mod FixedQueue
mod Tests
