-- ===== src/Lib.antt =====
-- electrum-private-relay: an Electrum proxy that forwards queries to an upstream server and sends
-- transaction broadcasts to one private relay instead.
--
-- The program's parts and the modules that model them:
--   src/protocol.rs        Protocol: `classify`, the responses; Protocol/Payload,
--                          Protocol/Classify and Protocol/Refusals are about what it takes frames
--                          for.
--   src/proxy.rs           Proxy/Pending: the table of pending requests; Proxy/Framing:
--                          `read_frame`, with Laws and Taken; Proxy/State: a connection;
--                          Proxy/Writer: the task that writes to the wallet, and the supervision of
--                          the three tasks;
--                          Proxy/Connection: the two reading tasks, with Steps (the interleavings
--                          of all), Invariant, Preservation, Reachable, Safety, Rounds and Panics,
--                          with Measure and Ending (runs are finite), Supervision and Progress
--                          (what can still happen), Fifo and Delivery (what the wallet gets),
--                          Queries (answers against queries), Verbatim (what is written upstream,
--                          and what is passed on from there);
--                          Proxy/Server: `serve_until`, with Counts and Outcomes.
--   src/relay/*.rs         Relay: the relay's answers, Reject, Limited (with Bounds), Draining
--                          (with Counting and Publishing), SocksElectrum (with Answers and
--                          Submission).
--   src/endpoint.rs        Endpoint, with Hosts (validation), Parsed (parsing), Targets and Aliases
--                          (the guards), and Print (how an endpoint is printed), with Texts and
--                          RoundTrip.
--   src/config.rs          Config, with Validation.
--   src/main.rs            Main: `run` and the relay stack, with Runs and Guarantees; Main/Stack:
--                          the stack as one object with its calls, with Calls (what they hold) and
--                          Gate (the gate that it implements);
--                          Main/Process: the signal task, the server and the stack together, with
--                          Asked and Order (a shutdown).
-- Wire has the JSON values and the three structures that serde reads; Net has the addresses of
-- `std::net` with their parsers and printing, and Net/Locality how far the parsers read; Prelude
-- has texts, lists and results; Tokio has the semaphore and the watch channel as interfaces. The
-- modules named Samples, Tests or RunTests hold examples.
--
-- How state and operations correspond to the code. A text is the list of its Unicode scalar values
-- with its UTF-8 bytes (`bytes`, `len`); a frame is a list of bytes; a `HashMap` is an association
-- list. A connection is a record with the table, both input streams, the channel to the wallet and
-- logs of what was handed to the upstream writer, to the relay, to the channel and to the wallet.
-- A task's state says at which `await` it stands, and a function runs it to the next one, so a run
-- of the program is a sequence of steps in which the environment chooses the order, the relay's
-- answers and every failure. In the draining relay what is done under the mutex is one step, and
-- the publication of the count another. The runtime has several threads, so in the relay stack
-- each section under the mutex, each attempt at a semaphore and each drop is a step of its own,
-- and other calls and the shutdown may come between any two; no step of the stack looks at the
-- channel, and the publication is left out there. In the server `connections.shutdown().await` is
-- a phase in which the tasks are cancelled one by one, and a return drops the join set: what tasks
-- are left are told to abort, nothing waits for them, and they keep their slots until they end. In
-- a connection the request of an abort, the moment when it reaches its task and the end of the
-- wait for that task are steps of their own, between which any task may go on. Loops are one step
-- for each round, and no function takes fuel but by its own data: `read_until` recurs on its
-- limit, which is the bound that the code passes to `take`, and `read_groups` of the address
-- parser on the groups that are left, eight at most.
--
-- What is a parameter: serde_json and the code that serde derives (`Wire.SerdeJson`: parsing,
-- printing, the kinds of numbers; a failed `expect` on printing is a panic of the task), tokio's
-- semaphore and watch channel (`Tokio`), tokio_socks and the stream that it opens
-- (`Relay.SocksElectrum.Network`), the bytes that peers send.
--
-- What is not modelled: printing for people, clap's parsing of arguments, the part of a frame that
-- a failed or aborted write has sent, sockets and time: the grace of the last flush may end at any
-- step, and so may the whole connection, by an abort of its task. The server's loop and its
-- connections are separate models: a task of the server ends by a step of the environment, and in
-- the process a call of the relay begins while some task of the server proxies. A `usize` has 64
-- bits; the frame limit plus one does not overflow, since the configuration bounds it by 16 MiB.
pub mod Prelude
pub mod Wire
pub mod Tokio
pub mod Net
pub mod Protocol
pub mod Endpoint
pub mod Config
pub mod Relay
pub mod Proxy
pub mod Main
pub mod Samples
