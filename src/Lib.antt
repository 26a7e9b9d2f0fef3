-- ===== src/Lib.antt =====
-- The homework programs of a course on multithreading, which have one directory each. Those with
-- a core of their own are modelled: an allocator (p1), a chat (p2), a proxy (p3), a shell (p4), two
-- key-value stores in shared memory with their servers (p5 over System V, p6 over POSIX), a
-- suggestion server (p7) and a merge sort (p9).
--
-- p5 and p6. A hash table with chains lies in shared memory, in an array of 2048 nodes that hold
-- their links; free nodes are a list of their own. `Table` is what p5/HashTable.cpp and
-- p6/HashTable.cpp have in common, for any payload of a node: `Table.shared_memory_set`,
-- `get_node_free`, `set_node_free`, `find_node`. `NodePtr` is the index of a node or null. `Posix`
-- (p6: entries with a time to live) and `Sysv` (p5) are `set`, `get` and `del`. `Table.Chains` and
-- `Table.Shape` state the invariant: bucket and free lists are doubly linked and share no node,
-- keys stand in the bucket of their hash, at most once. `Table.Model` is the abstract view, a map with
-- room for so many more keys. `hash_int`, the hash of the source, is a parameter (any function), and so is
-- the clock. The search runs on fuel for `buffer_size` steps, and a chain cannot be longer.
-- `Posix.Worker` is p6/Worker.cpp: a message is scanned, executed under a semaphore and answered.
-- `Posix.Worker.Semaphores` are its semaphores with the cleaner's; `Posix.Server`, `Posix.Routine` and
-- `Posix.Worker.HandOver` are p6/Server.cpp, p6/Routine.cpp and how a connection comes from the server to
-- a worker: what a worker finds in shared memory at an event is whatever the others left there.
-- `Posix.Main` has the shared resources and the signal handler of p6/main.cpp (fuel: one `wait` more than
-- there are processes).
-- `Posix.Cleaner` is `HashTableCleaner` of p6/main.cpp (fuel: a chain has at most `buffer_size` nodes,
-- a section `NUM_SECTIONS` buckets).
-- `Sysv.Protocol` is the conversation of p5/Server.cpp and p5/main_worker.cpp,
-- `Sysv.Protocol.Server` the handlers of the former, and `Sysv.Workers` the four workers side by side: any
-- of them can take the next step of its loop (`Step`), if its semaphore lets it.
-- `Sysv.Protocol.Server.Exchange` is that server with its queue and the workers, in any order of steps.
-- Posting and waiting, `sscanf`, `recv`, `semop` and `epoll_ctl` are parameters or written out as
-- the manual states them; what ends a process (an exception, a wait, a bad index) is a value.
--
-- p4. `Shell.Parser` is p4/Parser.cpp, one character at a time. `Shell.Operand` is p4/Operand.cpp and
-- the part of p4/main.cpp that makes commands, operators and pipes; `Shell.Run` is `run` of
-- p4/main.cpp, where the execution of a command is a parameter; `Shell.Process` is `Command::run` with the
-- tables of descriptors, `Shell.Process.Pipeline` a pipeline in it.
--
-- p7. `Trie` is p7/Trie.cpp; `Trie.Words` is `get_words` with its stack (fuel: two rounds for each
-- node, as many as the loop can take), `Trie.Dictionary` the set of words that a tree holds, and
-- `Trie.Destroy` the destructor.
-- `Trie.Server` is p7/Server.cpp, which answers clients out of the tree.
--
-- p1. `Allocator` is p1/allocator.cpp, `Allocator.Realloc` its `realloc`. Blocks are listed with the
-- address by which a `Pointer` keeps them; sizes are unbounded numbers. Where `merge_empty_blocks`
-- has something to merge it decrements an iterator that it has erased; that, and a pointer to a block that
-- is not in the list, are the fault `undefined`.
--
-- p2. `Chat` is p2/Message.cpp and the handlers of p2/Server.cpp, along what `recv` and `accept` give
-- (`Chat.Blocks`: a text cut into blocks, with fuel for each of its bytes; `Chat.Relay`: a line goes to
-- all, over several events; `Chat.Conversation`: what two clients are sent).
-- `Chat.Client` is p2/Client.cpp along what `select`, `fgets` and `recv` give, `Chat.Client.Talk` a line
-- on its way from one client over the server to another.
--
-- p3. `Proxy.Config` is p3/config_parser.cpp with `std::getline` and `std::stoi`, `Proxy.Listener` the
-- listeners of p3/proxy.cpp, and `Proxy.Connection` its `Connection`: an asynchronous operation is pending
-- until the system completes it, in any order (`Step`), and then its handler runs; what the system may do
-- of a send is the parameter `sends`.
--
-- p9. `Sort` is p9/n_merge_sort.cpp and the tasks of p9/p_merge_sort.cpp, on any type with an order (fuel:
-- more than there are elements).
--
-- `Kernel` has the system calls that the constructors, the destructors and the server of p6 make, as a
-- program that goes on by the answers; the answers are a parameter that may depend on all calls so far. The
-- modules `Lifetime` are the constructors and destructors of the servers of p2, p5 and p7, the client of p2
-- and the worker of p6.
--
-- `Prelude` has the shared types and lemmas; `Tests` and the modules `Tests` of the parts hold the
-- theorems at concrete inputs.
--
-- Not modelled: the making of processes (but in `Shell.Process`), signals (but in `Posix.Main`),
-- printing, the functions `main` but for p4 and the loops of p5 and p6, p10 (a sum in floating point
-- over MPI), p11 (OpenCL), and the copy of googletest. A number of the table is an unbounded integer:
-- no sum of times overflows. The queue of p5 delivers a message as it is: that msgsnd and msgrcv are
-- given a size that is too large by that of mtype has no counterpart. A destructor that goes through
-- erased elements is `undefined` (`Kernel.drop_clients`).

pub mod Allocator
pub mod Chat
pub mod Kernel
pub mod Posix
pub mod Prelude
pub mod Proxy
pub mod Shell
pub mod Sort
pub mod Sysv
pub mod Table
pub mod Tests
pub mod Trie
