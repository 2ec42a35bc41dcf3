-- ===== src/Lib.antt =====
-- A model of the parts of by-framework-ts (the TypeScript SDK) by which agents call one another: how a
-- call is routed, recorded, waited for and sent, and when the suspended caller is woken, with the
-- theorems that make them correct.
--
-- A handler calls another agent, a group of them, or the user through its context (src/context.ts). A
-- call is built, recorded and sent by src/dispatch; src/availability.ts decides whether it goes out, from
-- the sets of members and the leases that src/registry.ts keeps.
--
-- An agent that calls another suspends, and is run again only by a reply on its agent type's control
-- stream. Registration (src/liveness/wait_registration.ts) records the wait in one of 16 sorted sets;
-- every reply passes the gate (src/liveness/wait_gate.ts), which claims the wait's entry by removing it;
-- the sweeper (src/liveness/wait_sweeper.ts) walks the entries that came due and sends a stand-in
-- (src/liveness/wait_reply.ts) where no reply will come; a worker (src/worker.ts) sends the replies and joins
-- those of a task group. They meet only in Redis, and read the records and leases that src/registry.ts
-- keeps there.
--
-- Files:
-- - Common: tests on native numbers, texts as lists of Unicode code points, JavaScript objects as
--   association lists, results.
-- - Protocol: Codec (toDict and fromDict of every command), Strings (JavaScript's `String` and truth of
--   a JSON value); src/protocol/commands.ts, src/protocol/message_header.ts, src/protocol/agent_state.ts, src/protocol/results.ts as data; the base of
--   a status.
-- - Redis: the server is a parameter, the record Redis.Env: a state, the data in it, and the commands
--   that the code awaits, each with its documented effect. A command may throw, before or after its
--   effect, so every theorem holds under failures. Async is the monad of the code that awaits. Memory
--   is a server that meets the parameter, with a script of failures; the examples run on it. A
--   handler runs without another process's commands between its own, except while a timer runs (`sleep`),
--   when others may write anything and keys expire. Times to live are passed on and have no other effect.
-- - Liveness: WaitIndex (src/liveness/wait_index.ts), WaitGate, WaitRegistration, WaitReply, and
--   WaitSweeper: Deadlines, Replies, Triage (resolveEntry and what it calls), Pass (sweepOnce).
-- - Registry: Executions (execution records of src/registry.ts), Leases (worker leases and scoped locks),
--   Members (declared types, members, denylist, admin state, who is online).
-- - Availability: src/availability.ts. Messages has its data; Policies and Policies.Verdicts say what a
--   verdict promises, Waiting that the polling ends.
-- - Dispatch: src/dispatch. Build has what a call is made of; callAgent is `call_agent`, with the ports of
--   createRedisCallAgentDeps. Waits, Rejections and Resumed are its proofs.
-- - Context: src/context.ts. askUser, callAgent (`context_call_agent`), Groups (dispatchGroup), Collecting
--   (collectGroupResults). The state is that of Redis and the flags of the context; Suspending and
--   Accounting are proofs.
-- - Worker: Returns (resolveReplyCommand, restoreInboundMetadata, applySuspendedStatus,
--   enqueueAgentReturn), Groups (the join in handleMessage), Completion (whether handleMessage answers
--   the caller when the handler returned, was cancelled or failed).
-- - ResumeMetadata: src/resume_metadata.ts.
-- - Examples: runs of the code on the server in memory.
--
-- Operations keep the names of the source in snake case; a class's fields that an operation reads
-- are its parameters. Log messages are left out. JSON is decoded: a value in Redis is a constructor of
-- Redis.Values, so the reading of a text that is no JSON is the constructor `unreadable`. A missing
-- optional field is '', 0 or {}, which is how the code reads it. Times are natural numbers of
-- milliseconds. Most loops are structural recursions: over the characters of a member, the candidates
-- of a reply, the due entries of a batch, the 16 shards of a pass, the 3 attempts of a send, the tasks of
-- a group. The two polling loops run on fuel, one round for each millisecond of their time-out and one
-- more, and give none where it is used up; the theorems on their end say that this does not happen where
-- the clock is not set back, since each pause takes at least a millisecond. An id that is made from a
-- uuid is made from the uuid that the state of Redis holds; nothing depends on two of them being different.
--
-- Not modelled: the timers and the start and stop of the sweeper, the loops of src/runner.ts, the clients,
-- streaming and history, plug-ins, discovery, HTTP and files, which are input and output or wiring. SHA-1,
-- new uuids, the clock, the spelling of a key, the hooks of plug-ins, tracing and the delivery of a
-- cancellation are parameters.
pub mod Common
pub mod Protocol
pub mod Redis
pub mod Liveness
pub mod ResumeMetadata
pub mod Registry
pub mod Worker
pub mod Availability
pub mod Dispatch
pub mod Context
pub mod Examples
