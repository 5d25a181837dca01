-- ===== src/Lib.antt =====
-- robotsix-agent-comm: agents that talk through a broker. Paths are below src/robotsix_agent_comm.
--
-- The program. Agents exchange JSON envelopes (protocol/). A broker daemon (broker/server.py) keeps
-- a registry of agents with capabilities, heartbeats and TTLs. An agent registers with POST /agents
-- and leaves with DELETE /agents/<id>. A message that is sent with POST /messages is forwarded over
-- HTTP to an agent that listens (transport/router.py, retry.py, client.py), or queued in the mailbox
-- of one that pulls with GET /messages. GET /agents and GET /traffic show the state. A sweep evicts
-- the agents whose TTL has passed. Bearer tokens authenticate a caller, a token bucket limits it.
-- The SDK (sdk/) gives an agent a poll loop with waiters for pending requests and a handler pool, and
-- a responder that serves requests by kind. A supervision agent (lifecycle/supervision.py) polls the
-- health of services, restarts them with backoff and escalates.
--
-- The files.
--   Prelude: Boolean tests, lists, integers, dictionaries and texts as Python has them.
--   Protocol/Value: JSON values. Protocol/Messages: protocol/messages.py. Protocol/Errors and
--     Protocol/Validation: protocol/validation.py. Protocol/Serialization: protocol/serialization.py.
--     Validation/Accepts, Serialization/RoundTrip, Serialization/Faults and Replies hold proofs.
--     Protocol/Redaction: SecretRedactor of protocol/config_contract.py, with proofs in Secrets.
--   Transport/Endpoints: transport/endpoints.py and errors.py. Transport/Registry, Retry, Router,
--     Client: the files of those names in transport/. Registry/Laws, Registry/Abstract (the registry as
--     a quotient that forgets the order), Retry/Attempts and Retry/Delays hold proofs.
--   Broker/RateLimit: broker/_rate_limit.py. The others below Broker are broker/server.py: State
--     (_BrokerHTTPServer, with the audit log of broker/_audit.py), Http (requests and answers), Auth,
--     Register, Deregister, Send, Poll, Agents, Traffic (a handler each), Dispatch (do_GET, do_POST,
--     do_DELETE) and Sweep (_sweep_once). Invariant holds what the tables satisfy together, Runs
--     the runs of the daemon as a step relation, and the modules below a handler what is proved of it.
--   Broker/Threads: the handlers that change the tables and the sweep again, cut at the locks that
--     they take: Threads/Enrolment, Sending, Polling and Jobs. Threads/Machine interleaves them, and
--     Alone, Queues, Tables, Races and Unswept hold proofs.
--   Broker/Config: broker/config.py, with _parse_inline_tokens in Config/Tokens; Config/Valid,
--     Tokens/Parsed and Tokens/Written hold proofs.
--   Brokered: NetworkedBrokerTransport of transport/brokered.py, the answers that a client reads.
--     Brokered/Directory: BrokeredRegistry. Brokered/Wire: the requests that both make. Outcomes,
--     Delivery, Directory/Listings, Directory/Enrolment, Wire/Shown, Wire/Enrolled and Wire/Visible
--     hold proofs.
--   Transport/Server: transport/server.py, the listener of an agent that is dialled; Server/Exchanges
--     holds proofs.
--   Sdk/Responder: sdk/responder.py (_dispatch, _lookup_handler, register_handler), with
--     supported_kinds in Responder/Kinds; Responder/Replies and Responder/Outcomes hold proofs.
--     Sdk/Requester: sdk/reply.py and the end of request of sdk/brokered_request.py. Sdk/Agent:
--     sdk/agent.py in pull mode; Agent/Answers (_run_handler), Agent/Waiting (the threads as a step
--     relation) and Agent/Sorting (_dispatch_pull) hold proofs. Sdk/Conversation and Sdk/Brokered put
--     them together. Sdk/Lifetime: start and stop with their calls at the broker; Sdk/Direct: an agent
--     that listens and is dialled. Lifetime/Discovered, Lifetime/Sessions and Direct/Exchanged hold
--     proofs.
--   Lifecycle/Supervision: lifecycle/supervision.py, one poll of a service; Supervision/Agent the
--     tables, the cycles and the start, Agent/Status the status endpoint, Supervision/Settings the
--     configuration from the environment. Supervision/Service, Supervision/Named,
--     Supervision/Restarts, Agent/Reached (the cycles as a step relation), Settings/Listed and
--     Settings/Started hold proofs.
--     Lifecycle/Server: lifecycle/server.py. Lifecycle/Config: lifecycle/config.py, the switch of
--     tracing.py and build_server of service.py, with proofs in Config/Served. Lifecycle/Backend:
--     lifecycle/backend.py.
--   Tests: the theorems at concrete inputs.
--
-- How the code is represented.
--   A handler takes the state of the server and gives the answer with the state after it. A dict is
--   an association list in insertion order. An exception that a handler catches is a value, one that
--   it lets through is an answer `crash`. A request reads each clock once; times are natural numbers
--   of microseconds, rates are in thousandths of a token a second. A float in a payload is kept by
--   its text. JSON text is the value that json.loads finds in it, or none. What urlsplit and parse_qs
--   make of a request line are fields of the request. Texts of exceptions and of values, the length
--   of a JSON text and the reading of a float are functions of the record World, as is the network.
--   int() reads ASCII digits with a sign, spaces and underscores. A negative size or rate is 0.
--   No definition runs on fuel but retry_call, whose loop runs over the attempts that are left, and
--   the wait of a poll, which runs over a list of wakes: each gives the clock and the state that the
--   other threads left when the wait returned, and the poll answers or still waits after them.
--   A handler below Broker runs from its first lock to its last with no other thread between, but for
--   those waits; in Broker/Threads any thread may run between two locks. What is read of a table with
--   no lock is an act of its own there.
--   An agent is a record of what its threads share, and each step of a thread is a function on it; the
--   waiter that _dispatch_pull finds is filled in the same step, so that a reply that arrives between
--   the end of a wait and the removal of its slot is lost here as it is there. A poll of a service
--   takes the readings of the clocks and the results of the health checks as its argument, with times
--   in whole ticks; the three tables of the supervisor have an entry for each name, and a poll reads
--   and writes those of its service. Callbacks, handlers and the methods of a subclass are functions;
--   an exception of theirs is a value. A handler of a responder returns a JSON object or raises: what
--   dict() or json.dumps refuses is no result of the model. What the Langfuse client makes of a trace
--   is a parameter. float() and the reading of files are parameters of the model;
--   strip() removes ASCII white space. Log messages are left out.
--   What lies between a client and the broker (urlsplit and parse_qs, the length of a body, urlencode)
--   is the record Wire of Brokered/Wire, and who listens at an address, in Sdk/Direct, a function.
--
-- Not modelled: the sockets, TLS and threads of the servers, the text of the audit file, the page of
-- broker/_dashboard.py, broker/service.py, sdk/discovery.py and the constructors of sdk/brokered.py (they
-- pass arguments on), LifecycleTracing.event, the rest of protocol/config_contract.py.
pub mod Prelude
pub mod Protocol
pub mod Transport
pub mod Broker
pub mod Brokered
pub mod Sdk
pub mod Lifecycle
pub mod Tests
