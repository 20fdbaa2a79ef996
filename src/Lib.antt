-- ===== src/Lib.antt =====
-- Skynet, the actor runtime on which the server runs (project/skynet), in its parts that decide what
-- is delivered to whom, and when.
--
-- How the parts interact. A service is a `struct skynet_context` with a message queue of its own
-- (skynet-src/skynet_mq.c). Whoever has a message for it finds it by its handle or its name
-- (skynet-src/skynet_handle.c) and pushes the message. A queue that has messages and is not in work is
-- put into the global queue; a worker takes a queue from there, takes some messages from it, and puts
-- it back. The timer (skynet-src/skynet_timer.c) pushes a message when a time that a service asked
-- for has come. Bytes from a socket become packages in lualib-src/lua-netpack.c, which the gate services
-- written in Lua call for every message of the socket thread.
--
-- The files.
-- Prelude: numbers, lists as C arrays, memory addressed by number.
-- Mq: one message queue, a ring that grows (`skynet_mq_create`, `skynet_mq_pop`, `expand_queue`,
--   the ring part of `skynet_mq_push`). Mq/Ring, Mq/Pop and Mq/Fifo compare it with a list.
--   Mq/Global: the linked list of queues (`skynet_globalmq_push`, `skynet_globalmq_pop`).
--   Mq/Schedule: the calls on an allocated queue with the `in_global` flag and its release.
--   Mq/Dispatch: who may call what, as steps of creators, senders and workers, and the states reached.
-- Timer: the timing wheel, `add_node`, `move_list`, `timer_shift`, `timer_execute`, `timer_update`
--   and `skynet_updatetime`. Timer/Slot says where a time stands in the wheel, Timer/Due what the
--   wheel holds for each time; Timer/Place, Timer/Shift and Timer/Wheel show that each call does what that
--   says, Timer/Ticks takes many ticks.
-- Handle: Handle/Names is the sorted array of names, Handle/Table the hash table of services.
-- Netpack: `filter_data_` and what it calls, `lpop`, `lpack`, `lclear`. Netpack/Frames says what the
--   packages of a stream are, Netpack/Chains what is kept for a file descriptor, Netpack/Stream has
--   a reader and several streams, Netpack/Pack the way from `lpack` to the reader.
-- Gate: service-src/databuffer.h, the unread bytes of a connection of the gate service
--   (`databuffer_push`, `databuffer_read`, `databuffer_readheader`), compared with a list of bytes.
--   Gate/Hashid: service-src/hashid.h, the hash of connection ids (`hashid_init`, `hashid_lookup`,
--   `hashid_insert`, `hashid_remove`, `hashid_full`).
-- Server: skynet-src/skynet_server.c with skynet-src/skynet_harbor.c, on top of Mq and Handle. Server.antt
--   has the services, their sessions and reference counts, and skynet-src/skynet_error.c: a line of the
--   log is a message that `skynet_error` pushes to the queue of the service named logger; Server/Create is `skynet_context_new`,
--   Server/Send `skynet_send`, Server/Dispatch a worker's turn, `skynet_context_message_dispatch`,
--   Server/Harbor the harbor service, Server/Monitor skynet-src/skynet_monitor.c. The init function and the
--   callback of a service are arguments, which may change the whole node; so are the addresses of new
--   memory, and the address and the length of each line of the log. What a module does when its instance is
--   released is left to it; the call is noted.
-- Seri: lualib-src/lua-seri.c, which makes bytes of Lua values and back. Seri/Write packs into blocks,
--   Seri/Read unpacks, Seri/Encode says what the bytes are. What Lua's C API shows of a value is a
--   tree; a table is its array and its other pairs, in the order of `lua_next`. Bytes are little-endian.
-- Crypt: lualib-src/lua-crypt.c. Crypt/Des is the cipher, Crypt/Padding and Crypt/Text `ldesencode` and
--   `ldesdecode`, Crypt/Powmod the key exchange, Crypt/Random `lrandomkey` and `lxor_str`, Crypt/Base64
--   and Crypt/Hex the codecs. Parts of a word that do not overlap are put together by a sum where the
--   source has `|`. The values of `random` are an argument.
-- Tests: the theorems and definitions at concrete inputs.
--
-- Conventions. A pointer is a number, 0 is NULL; memory is a function from addresses. A C array is a
-- list. 32-bit times are taken modulo 2 ^ 32. A failed assertion or a read through NULL is `none`.
-- A call that holds a lock is one step. What the code gets from outside (the clock, the handle of a
-- service, the address of new memory) is an argument.
--
-- Rounds of loops. A loop that is not along a list carries its number of rounds: the search for a level
-- of the wheel has one round for each of the four levels; bisection has as many rounds as names, and
-- each of them shortens the interval; the loop of `skynet_handle_register` has two rounds, since a
-- doubled table has a free slot; `push_more` has as many as bytes, of which each round takes two;
-- `luaseri_unpack` has four for each byte and four more, since every value takes
-- at least a byte; the loops over blocks and over four characters have as many as bytes; `mul_mod_p` and
-- `pow_mod_p` have 64, the bits of a word; `hashid_init` has one more than nodes, since each doubles a size
-- of at least 16. A decoding of base 64 whose rounds run out is `unfinished`, which is no outcome of the code.
--
-- Machine integers. Times, sessions, `total`, the words of the ciphers and the products of the key
-- exchange wrap as in the source. In the hash of connection ids an int that would overflow is `none`.
-- The `cap` of a message queue, the `len` of the writer of Lua values and the lengths of the strings of
-- lua-crypt.c are ints in the source and are taken to stay below 2 ^ 31; Mq/Fifo has a bound for `cap`.
--
-- Not modelled: the commands of services, `skynet_sendname`, the socket server, the gate service above
-- its buffer and its hash, service-src/service_harbor.c and the other Lua libraries; the start-up and
-- the threads, the files of skynet-src/skynet_log.c and service-src/service_logger.c, which are calls of the
-- operating system; the line of the log that `skynet_monitor_check` hands to `skynet_error`; and the copies of other projects' libraries under
-- 3rd, lualib-src/sproto and the server's luaclib_src. Of the timer, the immediate reply of
-- `skynet_timeout`; of the handles, `skynet_handle_retireall`; of lua-netpack.c, the ring behind the
-- queue of packages and `lfilter`; of lua-crypt.c, the hash and the message authentication codes; of
-- the gate's buffer, the pool of its nodes.
pub mod Prelude
pub mod Mq
pub mod Timer
pub mod Handle
pub mod Netpack
pub mod Server
pub mod Gate
pub mod Seri
pub mod Crypt
mod Tests
