-- ===== src/Lib.antt =====
-- A verification of async_berkeley, a C++ library of asynchronous Berkeley sockets: senders that
-- complete when `poll` says that a socket is ready.
--
-- The program's parts and the files that model them, with paths from the repository's root:
-- Queue: the intrusive task queue of include/io/execution/multiplexer.hpp, with the tasks as nodes of
--   an explicit heap. Queue.Links says what list a chain of pointers stands for, Queue.Effects what an
--   operation writes, Queue.Contents what it does to the lists. Queue.Drain has `run_queue`. Queue.Family
--   and Queue.Operations have several queues on one heap, Queue.Handlers the handlers of their tasks.
-- Poll: the multiplexer of include/io/execution/poll_multiplexer.hpp and
--   include/io/execution/impl/poll_multiplexer_impl.hpp. Poll.Interest has the interest list, Poll.Syscall
--   the call of `poll`, Poll.Mux `connect`, `start` and `complete`, Poll.Wait `prepare_handles` and
--   `wait_for`. Poll.Runs has the runs of operations and polls, of several threads, Poll.Delivery
--   the way of one operation to its signal, Poll.Service what any poll completes. Poll.Pointers has
--   the pointer code of the loop in `wait_for`, Starting that of `start`;
--   Refinement ties the loop to the lists. The other files below Poll prove things of these.
-- Socket.Message: the scatter-gather buffers of include/io/socket/socket_message.hpp and its
--   implementation below impl/, with the POSIX `operator+=` of one buffer. Its child Bytes says what
--   a message holds, Header has the conversions to `struct msghdr` and the two ways to receive.
-- Socket.Handle: `socket_handle` of include/io/socket/socket_handle.hpp, with its implementation below
--   impl/. Programs has sequences of its operations, Ownership and Release their accounts, Exchange
--   the single operations and Order the comparisons. Threads has `swap` and `set_error` as several
--   threads run them at once, Swaps and Errors what becomes of the descriptors and the errors.
-- Socket.Sync: the synchronous operations of include/io/socket/detail/sync_operations.hpp, with their
--   retries after an interrupt; Socket.Sync.Answers says what they make of the kernel's replies.
-- Socket.Dialog: `socket_dialog` of include/io/socket/socket_dialog.hpp, with its implementation below
--   impl/.
-- Socket.Iterator: `buffer_iterator` of include/io/socket/detail/buffer_iterator.hpp, with its
--   implementation below impl/: Arithmetic and RandomAccess have its laws, Traversal the loop over a
--   message.
-- Socket.Option: include/io/socket/socket_option.hpp and include/io/socket/socket_address.hpp. Contents has
--   the bytes of an option, Order its comparisons.
-- Socket.Windows: the buffers and `fcntl` of
--   include/io/socket/detail/platforms/windows/socket_impl.hpp; Buffers has them beside the POSIX ones.
-- Functor: include/io/detail/small_functor.hpp. Moves has single functors, Balance the invariant of a
--   memory of them, Programs and Accounts what programs do with them, Exchange swap and moves.
-- Async: the asynchronous operations of include/io/socket/detail/async_operations.hpp: the attempt that
--   is made at once, and the sender that is left. Async.Eager joins them to Poll.Mux.start. Async.Dialogs has
--   the operations that a dialog passes on to its handle. Async.Accepts has what becomes of an accepted
--   connection.
-- Executor: `push` and `emplace` of include/io/execution/executor.hpp and include/io/execution/triggers.hpp,
--   on the handles of Socket.Handle. Flags has the status flags, Emplace the outcomes, Nonblocking what
--   they mean with a kernel that keeps to its documentation. Executor.Loop has `wait` and the loop of a
--   program that calls it, on the runs of Poll.Runs.
-- Echo: `reader` and `writer` of examples/tcp_echo.cpp for one client, on the buffers of Socket.Message:
--   Sending has the loop of the writer, Padding a whole echo, Acceptor the server with its clients,
--   Events what its events do, Server what a client is sent.
-- Client: the ping-pong client of examples/async_ping_pong_client.cpp: the functions that run when an
--   operation completes. Progress has how far it comes.
-- Base: lists, tests and signed integers over the native numbers.
--
-- The parts meet in Poll.Mux, where a queue is the list of its tasks: Queue.Contents and Queue.Drain say
-- that the heap's operations are those of lists. A critical section is one step. What other threads do
-- while `poll` waits is an argument of `wait_for`. The kernel's answers and the clock are a list of
-- replies, those to `poll` functions of its timeout; error numbers, `errno` and `getsockopt` are the fields of a record, Poll.Mux.Platform.
-- An operation's function is an argument; a receiver is the number under which its signal is logged.
--
-- Bounds and fuel: only Queue.Drain.run_queue runs on fuel, of which one more than the number of tasks is
-- enough. Descriptors are `int`s and are converted to 64-bit sizes as the code does.
--
-- Not modelled: the async scope of the executor, which is stdexec's, the dispatch at compile time by
-- tag_invoke and concepts, the Winsock
-- calls, the allocators, what a receiver does when it is called, and the C++
-- memory model.
pub mod Base
pub mod Queue
pub mod Poll
pub mod Socket
pub mod Async
pub mod Executor
pub mod Echo
pub mod Client
pub mod Functor
