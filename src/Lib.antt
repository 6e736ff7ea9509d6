-- ===== src/Lib.antt =====
-- libdill: structured concurrency and message protocols for C.
--
-- The library gives a program handles (`handle.c`), objects with a table of functions that are
-- addressed by small numbers. A socket is a handle. Bytestream sockets and message sockets are
-- stacked: a protocol takes over the handle of the socket below it, checks that it has the interface
-- that the protocol needs, and gives out a handle of its own (`dill_prefix_attach` and the like).
-- Bytes are passed as scatter/gather lists of buffers (`iol.c`). Of the protocols, PREFIX and SUFFIX
-- make messages of a bytestream, TERM ends a sequence of messages, and HTTP stands on SUFFIX and TERM
-- and sends the lines of a head as messages.
--
-- Files and what they model. A function `dill_x` is a definition `x`; a loop is a recursion; `errno` is
-- the error of a `Result`; state that a function changes is passed in and out.
--   Base (Tests, Lists, Errors, Loops): Boolean tests on the native numbers, lists measured by them, errors,
--     and loops as a step that is iterated on fuel.
--   Handle (handle.c): the context as a record `Ctx`, the table of handles as a list of slots, the
--     preallocated pool and the growth of the table. `hmake`, `hown`, `hclose`, `hquery` are the
--     functions. What is called through an object's table is a parameter. Pool, Make, Release, Close
--     and Query hold the lemmas of one function each, Invariant the well-formedness.
--   Iol (iol.c): a heap of nodes by address and a memory of bytes by address; address 0 is NULL. `iolcheck`,
--     `ioltrim`, `iolto`, `iolfrom`, `ioltoiov` are the functions. Chain is the view of a list of nodes
--     as a list, and the other modules hold the lemmas of one function each.
--   Utils (utils.c): the network byte order (Bytes), the stripping of strings (Strip), Base64 (Base64).
--   Bsock and Msock (libdill.h): the sockets below a protocol as records of functions on a state, and
--     records of laws of a connection that works. Both have an instance, a queue in memory.
--   Sockets (prefix.c, suffix.c, term.c): what the attach and detach functions share, over a record
--     `Handles` of the calls of handle.c. Nothing is proved of them.
--   Prefix (prefix.c), Suffix (suffix.c), Term (term.c): send and receive, attach and detach. The
--     modules Messages say what arrives of what is sent.
--   Http (http.c): the lines, their parsers and the send and receive functions, over a message socket.
--     Scan has the lemmas on the scanning loops; Request, Status and Field those on each kind of line.
--   Queue (slist.h, qlist.h): the intrusive stack and queue on a heap of `next` pointers by address. Links is
--     the view of a chain of nodes as a list, Lifo and Fifo hold the theorems on stack and queue.
--   DoubleList (list.h): the doubly linked list on a heap of `next` and `prev` pointers.
--   Stack (stack.c): the cache of unused stacks; a stack is the address of its top, and what the system
--     answers to a call is an argument.
--   Sched (cr.c): the ready queue, the clauses that a coroutine waits for and the timers. Wait has
--     `dill_wait` over a clock and an `epoll_wait` that are parameters, and Pollset what `dill_pollset_poll`
--     (epoll.c.inc) does with the events; Waiting is about both. Invariant says how lists, timers and queue agree with the coroutines;
--     Clauses and Progress have what a cancellation does to them.
--   Bundle (cr.c): the start and the end of coroutines, `bundle_wait` and the closing of a coroutine. Ending
--     has what happens to the one who waits when the last coroutine of a bundle ends.
--   Chan (chan.c): half-channels on the lists of Sched. `chsend`, `chrecv`, `chdone` and `choose` are the
--     functions; a call that waits is followed up to `dill_wait`, and `resumed` is what comes after.
--   Ws (ws.c): WebSocket frames over a bytestream. Ws has the send, Receive the receive and Calls the
--     functions on top of them; Mask, Frame, Payload, Reading and CloseFrame have the lemmas on the parts
--     of a frame, Messages and Closing what arrives.
--   Fd (fd.c): `fd_send` and `fd_recv` over a record `Kernel` of the calls of the system. Buffer has the
--     buffer of a descriptor and the cache of buffers. Stream and Send state what a kernel that works
--     does, and Script is one that plays a script. Scatter and Copy have the lemmas on filling buffers,
--     Direct, Large, CopyAll and Refill those on each loop of the receive, Receive, Send and Ending
--     what the calls do.
--   Tcp (tcp.c): `bsendl`, `brecvl`, `tcp_done` and `tcp_close` of a connection over Fd. Errors and Closing
--     have what a failed call and a close do.
--   Ipaddr (ipaddr.c): `remote`, which makes an address of a text and a port, over `inet_pton` and a query
--     of the DNS that are parameters.
--   Socks5 (socks5.c): the login, `client_auth` and `proxy_auth`, in the parent; Command has the request to
--     connect and the reply, Remote the request with its address and the functions of the client as a whole.
--     A call is a chain of `send_then` and `recv_then`. Wire is a bytestream with two directions, Packets
--     has the lemmas on receiving a packet; Login, Connect and Address say what the two sides agree on.
-- A module Tests below a component has its examples on concrete data.
--
-- Numbers. A `size_t` that can wrap is written with its modulus 2 ^ 64; bytes are numbers below 256.
-- Pointers are addresses in Iol; elsewhere a buffer is the list of its bytes, or its length where
-- it is received into, and a NULL argument is a Boolean or an empty option. A write outside an array or
-- through a stale pointer is a result of its own, `none` or `fault`, in `hclose`, `send_frame` and
-- `client_login`, and so is the overflow of the indices in `encode` and `decode`. Out of the model are
-- a table of 2 ^ 30 handles, whose doubled size overflows an `int`, and a buffer of 2 ^ 63 bytes to skip
-- in fd.c, whose length is negative as a `ssize_t`.
--
-- Fuel. `Suffix.recv_loop` reads a byte at a turn and ends at the suffix, which may never come; one
-- turn more than the message has bytes is enough. `Term.drain` reads a message at a turn and ends at
-- the terminal message; one turn more than there are messages in front of it is enough. `flush` and `pad`
-- of Base64 have two and three turns, the most that their loops take. The recursions of
-- Iol on a chain of nodes take the fuel that their definitions state. `Sched.fire` takes a timer at a
-- turn, and one turn more than there are timers is enough; `poll_loop` takes a poll at a turn, and when a
-- coroutine is ready, one turn more than the system interrupts it is enough; `Chan.wake_all` wakes a
-- waiter at a turn, and one turn more than the list is long is enough. `recv_frames` of Ws reads a frame at a turn, and a message that the library sends has one
-- frame; `drop_all` reads a message at a turn and ends at the close frame. The loops of
-- Fd take a turn for each system call; the bytes asked for, the EAGAINs to come and one more are enough.
-- All other loops are structural.
--
-- Not modelled. The close of a bundle (`dill_bundle_close` of cr.c), the making of channels (chan.c), the
-- context (ctx.c), the clock (now.c), the registering of descriptors in pollsets (epoll.c.inc), the
-- other pollsets (kqueue.c.inc and poll.c.inc), the tree of timers (rbtree.c), the handshake of WebSockets (the attach functions of ws.c), the rest of ipaddr.c, Happy
-- Eyeballs (happyeyeballs.c) and SHA-1 and random numbers (utils.c) have no model yet. Opening connections
-- (fd.c, tcp.c), the sockets that only wrap the system's calls (udp.c, ipc.c) and TLS over OpenSSL (tls.c)
-- are not modelled, nor is the vendored resolver (dns). Deadlines are left out of the sockets: a call that
-- times out is a call that fails. What lies in the caller's buffers behind a received message or after an
-- error is kept by Fd only, nor is kept what an interrupted close frame leaves in a status.
pub mod Base
pub mod Bsock
pub mod Bundle
pub mod Chan
pub mod DoubleList
pub mod Fd
pub mod Handle
pub mod Http
pub mod Iol
pub mod Ipaddr
pub mod Msock
pub mod Prefix
pub mod Queue
pub mod Sched
pub mod Sockets
pub mod Socks5
pub mod Stack
pub mod Suffix
pub mod Tcp
pub mod Term
pub mod Utils
pub mod Ws
