-- ===== src/Lib.antt =====
-- libevlite is a network library in C: sessions over epoll or kqueue, served by I/O threads that
-- run an event loop and exchange tasks through message queues. This library is a model of its core,
-- translated from the sources under src/, with the theorems that its parts rest on.
--
-- The parts and the files:
--
-- - Base: shared notation; lists, integers, masks and shifts, and unsigned words of 32 and 64 bits,
--   on which the wrap-around is written out.
-- - Utils: getpower() and nextpow2() of src/utils.c (Utils/Defs), the loop of the first on fuel of
--   33, one more than the rounds until a word is 0.
-- - Table: the hash table of src/ephashtable.c, which takes a host and a port to an object: the
--   hash function (Table/Hash), the functions on the table (Table/Defs), a chain as the stacks of
--   values of the endpoints (Table/Stack, Table/Laws) and histories of calls (Table/Run). What
--   snprintf() prints for a key is a parameter.
-- - Queue: the ring queue that QUEUE_GENERATE (src/queue.h) writes out for a type. Queue/Defs has
--   one function per macro; Queue/Laws the invariant (a power of two of slots, counters that wrap
--   at 2 ^ 32) and the list of elements; Queue/Fifo and Queue/Run relate them to a list. The
--   element type is a parameter.
-- - Buffer: struct buffer and the buffer_ functions of src/message.c. The pointer into the block is
--   the offset from its start. Buffer/Defs has the functions on memory, Buffer/Read those that read
--   from a descriptor. The loop that doubles the capacity runs on fuel of 64: a capacity of at
--   least 128 is above 2 ^ 63 after 57 rounds.
-- - Session: the session ids of src/session.h (Session/Sid) and the session_manager_ functions of
--   src/session.c (Session/Manager), a table of slots with a free list through the unused ones. A
--   session is its address; of its fields the manager reads and writes `id` and `manager`, which
--   the state Pool carries.
-- - Message: the lists of session ids of src/sidlist.c (Message/SidList) and `struct message` with
--   the message_ functions of src/message.c (Message/Defs), which hold such a list of receivers and
--   count the sends that succeeded and failed.
-- - Event: `struct event`, `struct evtimer` and `struct eventset` of src/event-internal.h
--   (Event/Defs), an event being its address; the timer wheel of src/timer.c and event_active() of
--   src/event.c (Event/Wheel); event_queue_insert(), event_queue_remove(), evsets_add() and
--   evsets_del() of src/event.c (Event/Sets), with the two functions of the backend as parameters;
--   event_create(), event_reset(), evsets_create(), evsets_dispatch() with what it calls,
--   evtimer_clean() and evsets_destroy() (Event/Loop), with the clock, the dispatch() of the
--   backend and the callbacks as parameters. The loop of evtimer_dispatch() runs on fuel, the
--   length of the bucket; that of evsets_process_active() on fuel, one more than the active events.
--   Event/Tick to Event/Fires follow an event through the calls of evtimer_dispatch(); Event/Wait,
--   Event/Callbacks and Event/Active are about one round of evsets_dispatch(), Event/Removal about
--   evsets_del().
-- - Poll: the backend of src/epoll.c (Poll/Defs, Poll/Dispatch), a pair of events for each
--   descriptor. epoll_ctl() is a parameter with the promises of its manual as hypotheses
--   (Poll/Kernel); what realloc() and epoll_wait() answer are arguments. The loop of epoll_insert()
--   runs on fuel of 32, one more than the doublings of an int32_t.
-- - Channel: the sending part of `struct session`: session_send() and session_sendmessage() of
--   src/session.c, and channel_send() and channel_transmit() of src/channel.c (Channel/Defs). The
--   send queue is a list of addresses of messages, with the messages in a store; the bytes that the
--   descriptor has taken are kept in the state. Channel/Transmit and Channel/Drain are about one
--   call of channel_transmit(), Channel/Send about one of session_send(), Channel/Stream about
--   sequences of calls, as a step relation. Channel/Close is the send queue of a session that ends
--   or connects again, Channel/Shared about messages that several queues hold. Channel/Status has
--   the bits of the status of a session, where the event set keeps its events, and the functions of
--   src/session.c on them; Channel/Handlers the handlers of src/channel.c for reading, writing,
--   keepalive, reconnection and scheduled tasks, with what the service answers and does to the
--   session as a parameter; Channel/Waiting, Channel/Handled and Channel/Progress are about them. A
--   session sends by channel_send(), not by a driver; the allocation of the message and QUEUE_PUSH
--   may fail; of message_add_buffer() the code asserts that it does not. The loop over writev()
--   runs on fuel, more than the bytes to be sent.
-- - Network: the sending tasks of src/network.c in one I/O thread: _send_buffer(), _send_direct(),
--   _broadcast_direct() and _broadcast2_direct() with their loops (Network/Defs), on the session
--   manager and on sessions that share one store of messages. Network/Account is about one session,
--   Network/Held about the queues of all sessions of the thread, Network/Broadcast and
--   Network/Everyone about the two broadcasts. What the service, the descriptor, malloc() and
--   QUEUE_PUSH answer in each round is a parameter.
-- - Thread: the queue of tasks of src/msgqueue.c and the posting and processing of tasks of
--   src/threads.c (Thread/Defs), on the ring queue; iothread_main() and iothread_on_command() with
--   the threads that post, as a step relation in which the steps of all threads come in any order
--   (Thread/System): each critical section of the lock, each call on the descriptor of eventfd()
--   and each task is one step. The loop over the tasks runs on fuel, more than the tasks in the
--   queue.
--
-- The buffer stands alone; an I/O thread works on two ring queues; a message holds a list of ids; a
-- session id is made by the manager from the index of its thread, the version and the number of the
-- slot; a session queues messages and counts in them what it has sent; the hash table takes its
-- size from nextpow2().
--
-- What malloc(), realloc(), readv(), read(), writev(), write(), ioctl() and recvfrom() answer are
-- arguments of the functions.
--
-- Not modelled: the vendored code (src/ikcp.c and the lists of BSD in src/queue.h), src/driver.c
-- that leads to it, and the calls of sockets in src/utils.c and src/network.c, which are input and
-- output; the backend src/kqueue.c; of the backend the event set takes two functions as parameters;
-- the start and the stop of threads in src/threads.c, the creation of the descriptor in
-- src/msgqueue.c, the handlers that make a session (accept, connect, associate) and those of UDP in
-- src/channel.c, the posting of tasks and the tasks that do not send in src/network.c, the list of
-- the scheduled tasks of a session in src/session.c.
pub mod Base
pub mod Utils
pub mod Table
pub mod Queue
pub mod Buffer
pub mod Session
pub mod Event
pub mod Message
pub mod Channel
pub mod Thread
pub mod Poll
pub mod Network
