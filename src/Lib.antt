-- ===== src/Lib.antt =====
-- libmp: messaging over InfiniBand verbs and GDSync, with operations that a CUDA stream orders.
--
-- The program. A process talks to a fixed set of peers (clients), each with a queue pair and two
-- flows, transmit and receive. An operation takes a request from a pool, fills in a work request and
-- posts it, at once or when a stream reaches an id. Completions are polled from the clients' queues
-- and make their requests complete; a wait spins on that progress and gives the requests back to the
-- pool. The code is src/mp.c (pool, progress, CPU operations), src/mp_peersync.c (stream operations),
-- src/mp_internal.h and include/mp.h (types). comm_library/comm.cpp lies over it: ranks in place of
-- clients, and a handshake that says when a receiver is ready.
--
-- The model. Machine has the process state (requests at addresses, the free list, clients by index,
-- the outside world) and a monad over it: a command returns, or faults (a failed assertion, exit, a
-- bad access, or the loop without an end in mp_register when ibv_reg_mr fails), or runs out of fuel.
-- Env is what the process calls: verbs, GDSync, CUDA, the clock and malloc, as functions over an
-- abstract outside world, with the settings that mp_init fixes.
--
-- Files and the code they are about:
--   Base, Base/*        shared names, tests on numbers, lists, maps
--   Types, Types/*      src/mp_internal.h, include/mp.h: enumerations, requests, clients
--   Env                 the calls into other packages; the globals that mp_init sets
--   Machine, Machine/*  the state, commands, statements on how they end, chains of requests
--   Pool, Pool/*        src/mp.c: allocate_requests, get_request, new_stream_request,
--                       release_mp_request
--   Posted, Posted/*    client_track_posted_stream_req, client_track_waited_stream_req (src/
--                       mp_peersync.c), progress_posted_list (src/mp.c)
--   Progress, Progress/* src/mp.c: progress_request, client_can_poll, mp_progress_single_flow,
--                       mp_progress_all
--   Wait, Wait/*        src/mp.c: mp_wait, mp_wait_all
--   Post, Post/*        mp_post_send, mp_post_recv (src/mp.c), mp_post_send_on_stream
--                       (src/mp_peersync.c)
--   Ipc, Ipc/*          src/mp.c: the IPC handle cache, the shared-memory slot of mp_isend,
--                       progress_ipc
--   Send, Send/*        src/mp.c: mp_irecv, mp_irecvv, mp_isend, mp_isendv, mp_iput, mp_iget
--   Stream, Stream/*    src/mp_peersync.c: the operations that a stream orders, with a GDSync library
--                       that has the descriptor interface; mp_wait32 of src/mp.c
--   Windows, Windows/*  src/mp.c: mp_register, mp_deregister, mp_window_create, mp_window_destroy
--   Init, Init/*        src/mp.c: mp_init, its settings, queue pairs and shared memory; mp_finalize
--   DescQueue, DescQueue/* src/desc_queue.cpp: the queue of descriptors that a caller collects
--   Query               src/mp.c: mp_query_param, the debug and warning switches; mp_irecv_on_stream
--   Device              src/mp_device.cpp: get_descriptors, for device kernels
--   Comm, Comm/*        comm_library/comm.cpp, the layer over libmp: Tables, Peers and Indexed (comm_init),
--                       Handshake, Protocol, Announce and Ends (who may send), Messages, Flush and
--                       Stale (sends, receives, waits), Descs, Gather and Collected (descriptors for
--                       kernels), Switches
--   Triggers, Triggers/*   the order of ids in the batches of Stream: posts and waits; Pipeline puts the
--                       batch, the stream within it and progress_posted_list together
--   Returned, Returned/*, Stranded, Words  errors and waits of Stream, Send: what they leave behind
--   Tests, Tests/*      concrete inputs
--
-- Correspondence. A pointer to a request is its address, 0 is NULL; one request takes one address. A
-- function that writes *req_t returns its code with what it stores. Asserts are compiled in. Return
-- codes are natural numbers. The clients' posted lists are the linked requests themselves.
-- A descriptor queue holds pointers to requests for sends and waits, and what they point at is read
-- when it is posted; the batches of Stream are posted by the call that builds them, so they hold the
-- values.
--
-- Fuel. progress_posted_list and client_can_poll get as many rounds as there are addresses, since
-- their lists run through distinct allocated requests. The retries of mp_post_send and mp_post_recv
-- get one round for each attempt. The waits that the C bounds by nothing, mp_wait_all and
-- mp_post_send_on_stream, that of mp_init for the shared memory and that of comm_wait_ready, take their
-- fuel as an argument.
--
-- Not modelled: messages to the terminal; mp_query_print_qp, which
-- only prints; memory that a call fails to free on an error path, other than requests; what a GPU or
-- a peer writes while a call runs, but for the words that comm.cpp reads, which change with each look;
-- a failure of cudaHostAlloc in comm.cpp; the device kernels, the examples and the benchmarks.
pub mod Base
pub mod Types
pub mod Env
pub mod Machine
pub mod Pool
pub mod Posted
pub mod Progress
pub mod Wait
pub mod Post
pub mod Ipc
pub mod Send
pub mod Stream
pub mod Tests
pub mod Words
pub mod Triggers
pub mod Stranded
pub mod Returned
pub mod DescQueue
pub mod Windows
pub mod Init
pub mod Device
pub mod Query
pub mod Comm
