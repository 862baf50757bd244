-- ===== src/Lib.antt =====
-- Models of the fap2 server: a process that serves fap2 environments to clients over TCP, the
-- client of its protocol, and the agents and proxies by which a model reaches nodes in another
-- server.
--
-- The parts and how they interact.
-- - server/requests.h and requests.cpp, the words of the protocol: Requests.
-- - server/sclient.h and sclient.cpp, a connected client. Fap holds what the code uses of the fap2
--   library, as parameters. Server is the state of the process: a heap of sessions, the static list
--   sClients, the state of the library, what was sent and which sockets were closed; code that may
--   throw is in the monad Exec. Session has the contexts and the methods of the EnvProvider
--   interface (AddContext, GetContext, CreateEnv, AttachEnv, GetId, Call), Handler has
--   HandleMessage and Send, Registry the two critical sections of HandleSessionClient (SetId,
--   SetName, FindSessionClientIndex).
-- - Server.Related, Session.Related and Handler.Related show for any relation between states that
--   HandleMessage keeps it, from what the steps of a session need of it. Masked (sessions that are
--   not seen) is such a relation.
-- - The threads of sclient.cpp: Threads, a step relation on the whole process (AcceptAndDispatch,
--   the constructor, the start of a thread, a round of its loop, its end). Threads.Conversation
--   lists the messages that a run of it has handled, and Threads.Ending has the loop of one thread
--   as a function. server/sserver.cpp and server_main.cpp, the main thread alone: Listen.
-- - server/sthread.cpp and the critical sections of sclient.cpp, statement by statement: Locks,
--   with whole sections in Locks.Atomic and the lookup that takes no mutex in Locks.Lookup.
-- - server/reqbase.cpp, rgetmodelslist.cpp, rcreateenv.cpp and rexec.cpp: Jobs.
-- - client/bclient.cpp and client_test_main.cpp: Client, over a record of socket calls. Served puts
--   a session of the server at the other end of the client's socket, below the proxies and the
--   agent too. Network has any number of clients and the whole process, whose steps come in any
--   order.
-- - client/client_example.c and server/server_example.c: Programs.
-- - dmas/daaproxy.cpp and melempx.cpp: Proxy, the proxies by their addresses, whose requests go up
--   a chain of managers to the agent that owns the connection. Proxy.Stubs lists the other methods.
-- - dmas/renv.cpp, the agents ARenv and ARenvu: Agent, with the iterator CompsIter in Agent.Comps,
--   DoMutation in Agent.Mutation and the constructors in Agent.Types. Agent.Life has the runs of an
--   agent and its proxies. dmas/daaprov.cpp: Provider.
-- - Prelude has the shared types: texts are lists of byte codes, std::map is an association list,
--   an int is read from and written to text as a stringstream does. Session.Spec is the abstract
--   view of the contexts.
-- - Examples has concrete runs.
--
-- Numbers and fuel. Ids and sizes are natural numbers, since the code only counts up; the number
-- that AttachEnv reads is an integer. The chain of managers is followed with as much fuel as there
-- are proxies, which is enough since a manager is older than what it made. A loop of a client over
-- an iterator has one unit more than there are children. The loops that never end, of the main
-- thread and of the console, are run for any number of rounds or lines. Nothing else needs fuel.
--
-- Not modelled. The fap2 library (Env, MIface, Ifu, GUri, Elem, chromos) is not part of the
-- repository, and nothing is assumed of it but where a theorem says so. Socket calls of the server
-- are taken to send all bytes, and Served takes a request to arrive in one piece; in Network a
-- recv gives any part of what is there. In Threads a message is handled in one step; Locks shows
-- how that step is run, with code outside of the mutex and one Send. Calls of the pthread mutex are
-- taken not to fail. Console and log output is left out, and so are DumpCtx, ElemFp, which only
-- stores its arguments, the code in #if 0, and CompsIter::Set for two iterators of different
-- agents, which copies an agent of the fap2 library.
pub mod Prelude
pub mod Requests
pub mod Fap
pub mod Server
pub mod Session
pub mod Handler
pub mod Registry
pub mod Threads
pub mod Client
pub mod Proxy
pub mod Agent
pub mod Jobs
pub mod Locks
pub mod Provider
pub mod Programs
pub mod Listen
pub mod Network
pub mod Served
pub mod Examples
