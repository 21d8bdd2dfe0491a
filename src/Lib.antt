-- ===== src/Lib.antt =====
-- Verification of the larger programs of this repository: echo servers on select(), poll() and epoll, the
-- load generator that tests such servers, thread pools, and the small programs that try out locks,
-- semaphores and condition variables.
--
-- What stands where.
--   Prelude, Bytes, Strings, Lines, Kernel: shared names; C arrays as lists of bytes with memcpy() and
--     memmove(), and the strings in them; the line framing that the servers promise; the results of system calls.
--   Echo: the client record of socket_test/tcp_select_server_v2.c with handle_recv and handle_send.
--     Echo.Client holds the code, Echo.Views what a client stands for (the bytes queued, the bytes
--     pending), Echo.Copy, Echo.Recv and Echo.Send the handlers, Echo.Stream one connection over time.
--   SelectServer: main of the same file. SelectServer.State and SelectServer.Steps hold the code,
--     SelectServer.Valid, SelectServer.Accept and SelectServer.Rounds the invariant of its tables.
--   FirstSelect: socket_test/tcp_select_server_v1.c, with the clients of Echo. FirstSelect.Steps holds the
--     code, FirstSelect.Tables and FirstSelect.Turns a turn of the loop, FirstSelect.Rounds whole rounds.
--   Stress: socket_test/stress_test_client.c. Stress.Client, Stress.Request, Stress.Handlers and
--     Stress.Loop hold the code; Stress.Sending, Stress.Receiving and Stress.Ending the handlers,
--     Stress.Counts, Stress.Turn, Stress.Settled and Stress.Turns the turn of one client in the main
--     loop, Stress.Ends termination.
--     Stress.Main holds the loops over all clients, Stress.Start, Stress.Sums and Stress.Rounds what they
--     keep, Stress.Stuck when the condition of the main loop stays true. Stress.Connect holds
--     connect_nonblock. Stress.Program holds main from its arguments to its exit status, Stress.Success
--     what EXIT_SUCCESS says; Stress.Report percentile_ms and print_progress, Stress.Percentiles what
--     they read and write; Stress.Summary the final report.
--     Stress.Echoed takes a request of the load client through the server of Echo and back.
--   Epoll: socket_test/tcp_epoll_server_v1.c and socket_test/tcp_epoll_server_v2.c, whose clients hold
--     the buffers of Echo. Epoll.Recv, Epoll.Conn and Epoll.Loop hold the code, Epoll.Second what the
--     second version has of its own, Epoll.Turns and Epoll.Runs the invariant, Epoll.Same the comparison
--     with Echo, Epoll.Ends a client whose peer has closed the connection.
--   Rings, ThreadPool: thread_test/thread_pool.c. ThreadPool.Queue holds the ring of tasks, and
--     ThreadPool.Fifo what it stands for; ThreadPool.Workers the threads, a step for what one thread does
--     while it has the mutex, in any order.
--   PoolServer: socket_test/server_pthread_pool.c. PoolServer.Queue, PoolServer.Threads and
--     PoolServer.Client hold the code; PoolServer.Fifo and PoolServer.Wakeups the queue and the two
--     condition variables, PoolServer.Sends, PoolServer.Echo and PoolServer.Rounds one connection.
--   PollServer: socket_test/tcp_poll_server_v1.c. PollServer.Entry holds the handlers, PollServer.Loop
--     remove_conn and main; PollServer.Valid, PollServer.Rounds and PollServer.Runs the two arrays over
--     time, PollServer.Closing the removal of a connection.
--   Semaphores: thread_test/sem_pro_con_prob.c. Semaphores.System holds the code.
--   Counters: Counters.Racing is thread_test/pthread_no_mutex.c, Counters.Locked is
--     thread_test/pthread_have_mutex.c.
--   OneSlot, ReadWrite: thread_test/prod_cons_prob.c and thread_test/wr_rd_lock.c.
--   EchoThreads: thread_test/pthread_create.c.
--   MessageQueue: process_test/mq_producer.c and process_test/mq_consumer.c. MessageQueue.Texts holds the
--     code, MessageQueue.Relay what becomes of a line.
--   ParentChild: process_test/mq_p&s.c. ParentChild.Steps holds the code, ParentChild.Texts what becomes of a
--     message, ParentChild.Runs and ParentChild.Ends the two processes over time.
--   Pipes: Pipes.Unnamed is process_test/unamed_pipe_test.c, and Pipes.Copied what it prints; Pipes.Fifo
--     is process_test/fifo_write.c and process_test/fifo_read.c, and Pipes.Pieces what they write.
--   Sockets: Sockets.Programs is socket_test/tcp_server.c, tcp_client.c, tcp_mini_server_test.c and
--     tcp_mini_client_test.c; Sockets.Closing what they do on every path.
--   SharedMemory: process_test/shared_memory.c. SharedMemory.Setup is main up to fork(),
--     SharedMemory.Processes the two processes, SharedMemory.Exchange what the child prints.
--   Tests: concrete runs.
--
-- How the code is read. A function that mutates a structure takes it and returns it. What system calls
-- return is an argument: of a handler, of a round of the server, of a turn of a load client. size_t and
-- uint64_t wrap at 2 ^ 64 (Prelude.Words). A char array is a list of its size, and a copy that would run
-- past its end is cut there; the invariants of the clients hold the sizes.
--
-- Fuel. The copying loop of handle_recv in the servers is given one round more than there are bytes
-- pending, and each round takes a byte at least. The loops of the load client take fuel, and return
-- `none` when it is used up; enough is one round more than there are bytes of room and
-- interrupted calls (Stress.Sending, Stress.Ends). The loops of handle_client and send_all in
-- server_pthread_pool.c, and the loop over the descriptors in tcp_select_server_v1.c, return `none`
-- likewise; PoolServer.Sends, PoolServer.Rounds and FirstSelect.Rounds show that theirs is enough.
--
-- What is not the repository's own is a parameter: double and qsort() in Stress.Report, by what IEEE 754
-- and the C standard say of them, and atoi() and strtoull() in Stress.Program.
--
-- Not modelled: the set-up of the listening sockets of the servers, printing, and the other programs of
-- the repository, which are demonstrations of single calls.
pub mod Prelude
pub mod Bytes
pub mod Strings
pub mod Sockets
pub mod ParentChild
pub mod Pipes
pub mod Lines
pub mod Kernel
pub mod Echo
pub mod SelectServer
pub mod SharedMemory
pub mod Stress
pub mod EchoThreads
pub mod Epoll
pub mod PoolServer
pub mod PollServer
pub mod Semaphores
pub mod Counters
pub mod FirstSelect
pub mod MessageQueue
pub mod OneSlot
pub mod ReadWrite
pub mod Rings
pub mod ThreadPool
pub mod Tests
