-- ===== src/Lib.antt =====
-- The VC server of Why3 (src/server): a daemon that runs provers for its clients, at most `parallel`
-- of them at a time. Clients connect to a socket and send request lines; each request waits in a
-- queue until a process may be started for it, and the client is told of the start and of the end.
--
-- The parts, the files that model them, and the C files:
--   Base        blocks of memory (`malloc`, `realloc`, `memcpy`), how C code ends, lists, `int`
--   Queue       src/server/queue.c, the ring of pointers
--   ArrayList   src/server/arraylist.c, the keyed array
--   ReadBuf     src/server/readbuf.c
--   WriteBuf    src/server/writebuf.c, whose messages wait in a Queue
--   Text        the string functions of the C library that request.c calls
--   Request     src/server/request.c: Parse reads a line, Pending is the queue of requests
--   Poll        src/server/server-unix.c, the list of watched descriptors
--   Proc        src/server/proc.c, the running processes
--   Server      src/server/server-unix.c: the globals and what the system answers. Messages writes
--               the replies, Spawn the arguments and limits of a child, Jobs starts, schedules and
--               reaps processes, Lines reads request lines (`handle_msg`), Clients accepts, reads,
--               writes and closes, Loop is the loop of `main`, Startup what is done before it, Shutdown
--               the end and the signal handlers. View says what a state stands for, and Room
--               how much may still be added to it; Started, Asked, Schedule, Enough, Reaped, Framing, Unread, Accepted, Closed, Received, Interrupted, Written and
--               Limits have the proofs for single operations. Invariant is the invariant of the
--               loop, with a module for each kind of step, and Histories for all steps;
--               Ending says what it is to end well, and Rounds, Outcomes, Handled and Answered show how the
--               steps may end
--   Options     src/server/options.c
--   Windows     src/server/server-win.c, the same server over named pipes, job objects and a completion
--               port: Keys, Messages, CommandLine (which `run_request` builds for the started
--               program), Jobs, Clients and Loop are the code; Pump, Reading, Sockets, Listening and
--               Reaped have the proofs
--   Cpulimit    src/server/cpulimit-unix.c, which runs one command under limits, and in
--               Cpulimit/Windows the same for Windows, src/server/cpulimit-win.c
--   Words       examples/multiprecision/overlays/uint64gmp.h, the arithmetic on two words of 64 bits that
--               the extracted multiprecision library calls
--   Tests       runs, and the theorems at concrete inputs
--
-- A round of the loop schedules the requests that wait (`Loop.begin_round`), and then handles each
-- entry of the poll list (`Loop.handle_entry`): ended processes free places for waiting requests, a line of a client starts a
-- process or waits in the queue, and the messages that this causes wait in the client's write buffer
-- until the entry is ready for writing. `Invariant.Histories.Step` puts these together: a step leads
-- from a state and a place in the loop to the next ones, and entries that are added during a round are
-- visited in it, as in C.
--
-- On Windows a round (`Windows.Loop.round`) handles one event: a pipe has a client, a read or write of
-- a client has ended, or something happened to a process. A read and a write are started and end
-- in a later event; a client has at most one of each under way.
--
-- A C function on a struct is a function from the old struct to an `Outcome`: the new one, or why
-- the process stops (an assertion, `exit`, or code that the C standard gives no meaning). `unsigned`
-- and `size_t` arithmetic wraps as written; an `int` that overflows is undefined, and a `size_t` that becomes one keeps 32 bits (`Server.Lines.int_of`). A `char*` string is
-- the list of its bytes. Loops recur on the elements, or on the number of rounds left, which is the
-- length of the queue or list that they walk.
--
-- The system is an argument: the process ids that `fork` returns and the names that `mkstemp` makes
-- are a record (`Server.System`), and what `poll`, `accept`, `read`, `write` and `wait3` return is
-- an argument of the step that calls them. What the server makes the system do is a list of effects
-- in its state. The buffers of the clients stand in the server's state at their descriptors, since
-- C shares them by pointers. The scheduler's loop has as many rounds as requests wait, and each
-- round takes one; the loop over a read buffer has as many rounds as there are bytes.
--
-- On Windows the answers are a record too (`Windows.System`), and an event carries what the system
-- answers when it is handled. What a read brings is written into the buffer when its event comes.
-- Programs read their command line by the documented rules of `CommandLineToArgvW`
-- (Windows/CommandLine/Reader).
--
-- Not modelled: freeing of memory (no use after free is looked for), failure of `malloc`, the log,
-- what is only printed, the moment at which a signal interrupts the server, the console handlers, and
-- the closing of handles on Windows. The copies of other projects' code in
-- examples/multiprecision (mini-gmp, mt19937-64), its benchmark program, and the headers there that only
-- pass arguments on to GMP are left out, and so is everything written in OCaml and WhyML.
pub mod Base
pub mod Queue
pub mod ArrayList
pub mod ReadBuf
pub mod WriteBuf
pub mod Text
pub mod Request
pub mod Poll
pub mod Proc
pub mod Server
pub mod Options
pub mod Cpulimit
pub mod Words
pub mod Windows
mod Tests
