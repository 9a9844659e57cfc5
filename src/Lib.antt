-- ===== src/Lib.antt =====
-- The exercises of an operating-systems course in C: small programs, each in a directory of its
-- own, that share no code.
--
-- Chat (cw11): a chat over TCP. Chat.Message is the message of cw11/socket_utils.h and its packet
-- (serialize_message_t, deserialize_message_t, send_message, receive_message of
-- cw11/socket_utils.c). Chat.State has the globals of cw11/server.c and the monad its handlers run
-- in: a handler returns, waits for ever for the mutex, or does what C leaves undefined.
-- Chat.Registry has the loops over the table of clients, Chat.Text strtok, and Chat.Server the
-- handlers, each whole, under the names of the source; handle_client_message is what main calls for
-- a descriptor, and check_alive and drop_silent are the two halves of the loop of
-- check_if_clients_are_alive; Chat.Server.Loop has the loop of main over the events of epoll, with
-- the turns of the heartbeat thread in between. Chat.Client is cw11/client.c: registration, the
-- user's commands, the listening thread. Client and server meet in the messages: what the one lists
-- as sent is what the other receives. Chat.Sockets has the addresses and the sockets of both,
-- Chat.Server.Start and Chat.Client.Start their main functions, which compose the parts.
-- Chat.Conversation follows a private message from the line that a user types to the socket of its
-- receiver, and Chat.Screen on to what Chat.Client.Printing prints there; Chat.Everyone does the
-- same for a message to all, and Chat.Shutdown is the end of a chat.
--
-- MsgQueue (cw07): the chat over POSIX message queues, the server of cw07/server.c with the
-- messages of cw07/queue_spec.h. MsgQueue.Room is the specification: a list of members.
-- MsgQueue.Refine and its children relate the array of queues to it, for one message and for whole
-- runs. MsgQueue.Client is cw07/client.c; MsgQueue.Posting, MsgQueue.Arrival and MsgQueue.Session
-- put what a client sends in a session into the server, in the order that the priorities of the
-- messages give, and MsgQueue.Typing what a user types into the listener of another client.
-- MsgQueue.Serving is main of the server around its loop, with the signals that end it.
--
-- Printers (cw08): printers and users that share a circular queue (cw08/shared_memory_spec.h,
-- cw08/printers_server.c, cw08/users_client.c). Printers.Steps has the two loops as steps of one
-- access to the shared memory each, and lets any number of processes take them in any order.
-- Printers.Weights, Ring, Seen, Invariant, Moves and Order build the invariant; Progress and Runs
-- draw the consequences. Printers.Setup has both main functions, which make the shared memory and
-- the processes, Printers.Killing and Printers.Release what they leave behind, and
-- Printers.Children what a process does whose loop has ended.
--
-- Life (cw09): the game of life on a grid of 30 by 30 (cw09/grid.h, cw09/grid.c) by threads that
-- own ranges of cells (cw09/life.c). Life.Rules has the rule of the game, Life.Writes the order of
-- writes, Life.Threads the ranges, Life.Race the threads at the same time, Life.Frames which grids
-- are drawn, Life.Drawing how, Life.Screen what is seen then, and Life.Start main from its start.
--
-- Santa (cw10): nine reindeer and Santa of cw10/main.c, with one mutex and two condition variables.
-- Santa has the loops of the threads as steps, in any order; Santa.Knowledge and Santa.Invariant
-- say what is known at each point, Santa.Delivery when toys are delivered, Santa.Told who wakes
-- Santa, Santa.Progress who can move. Santa.Program is main with the creation of the threads, any
-- of which can fail, and the cancelling of the reindeer; Santa.Rest, Santa.Closing and
-- Santa.Measure say how its runs end, and Santa.Schedule makes whole runs to look at.
--
-- Reverse (cw03): both builds of cw03/zad1/reverse.c, in blocks and by bytes. Sizes is
-- cw03/zad2/main.c, the total size of the files of a directory.
--
-- Integral (cw06): cw06/zad1/main.c, an integral split among processes: Integral.Shares for the
-- shares of the processes, Integral.Exact for calls that work, Integral.Lost for children that
-- fail. Calculator is cw06/zad2: the loops of caller.c and calculator.c as steps over two pipes, in
-- any order; Calculator.Order has their invariant, Calculator.Progress says when they can go on,
-- and Calculator.Setup has their main functions.
--
-- Signals (cw05): Signals.Reaction is cw05/zad1/main.c, Signals itself cw05/zad2/catcher.c and
-- sender.c, and Signals.Requests what a run of the catcher shows. Signals.Exchange has the catcher
-- and any number of senders as processes whose steps come in any order; Signals.Exchange.Counting
-- and Confirming say who is confirmed then, Signals.Exchange.Missing who waits in vain.
--
-- Processes (cw04): cw04/zad1/main.c and cw04/zad2/main.c; Processes.Reaping counts the children.
-- Collatz (cw02): cw02/collatz/collatz.c and the loop of cw02/main.c, with the steps of mathematics
-- in Collatz.Steps, the bounds of an int in Collatz.Bounds, and the build with a shared library in
-- Collatz.Loading. Countdown (cw01): cw01/countdown.c.
--
-- Common holds what the models share: native numbers as indices of lists that stand for C arrays,
-- bounded loops, a signed integer. CMemory holds memcpy, strncmp, strings and words in memory.
--
-- Conventions. A C array is a list, with a write outside it written out where the code can do one
-- (a result none, fault or crashed). An int that the code never makes large is a natural number or
-- ℤ; the 32-bit words on the wire keep their reduction modulo 2 ^ 32. The host is little-endian and
-- time_t has eight bytes. The network, the queues of the kernel, files, the clock, rand and
-- uninitialised memory are arguments: the bytes or messages that arrive, what mq_open, fork and the
-- other system calls return, whether a read or write fails. A failing send only prints in this
-- code, so the attempt is what is recorded. A run of the queue of cw08 ends before the first
-- sem_destroy, behind which the use of a semaphore is undefined; until then processes may be killed
-- and started at any time. The queue of the kernel in MsgQueue.Arrival gives the oldest message of
-- the highest priority, as POSIX says. A sem_wait of cw08 is taken not to be interrupted by a
-- signal, a wait on a condition of cw10 to end only when it is signalled or its thread cancelled,
-- and in cw09 all threads handle a signal before the next one is sent, which main only ensures by
-- sleeping.
--
-- Fuel. Only the loop of the block version in Reverse has fuel: length / BLOCK_SIZE + 2 tests of
-- its condition are enough, since every round but the last takes a whole block. All other loops are
-- structural in the list they go through or in the number of rounds; the loop of cw02 in the rounds
-- that max_iter leaves.
--
-- A double of cw06 is a value of any type with the operations that the code uses. Where a theorem
-- needs laws of them it names them (Integral.Exact.IsExact: sums and multiples without rounding);
-- the tests take the natural numbers.
--
-- Not modelled: the start and end of ncurses and the freeing of grids (cw09), which keep no state
-- that the other parts read. The overflow of a long in cw06 is not modelled either.
pub mod CMemory
pub mod Calculator
pub mod Chat
pub mod Collatz
pub mod Common
pub mod Countdown
pub mod Integral
pub mod Life
pub mod MsgQueue
pub mod Printers
pub mod Processes
pub mod Reverse
pub mod Santa
pub mod Signals
pub mod Sizes
