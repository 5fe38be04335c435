-- ===== src/Lib.antt =====
-- A verification of lb, a layer 4 load balancer in Rust: BGP-announced virtual addresses in front,
-- Maglev consistent hashing and GRE tunnels to the backends behind.
--
-- The program. On every node a control plane and a data plane run. The data plane
-- (crates/lb-forwarder) takes batches of packets: it parses each (crates/lb-types), matches its
-- destination to a backend pool, clamps the MSS of a SYN, finds the backend of its flow in the
-- connection table or by the pool's Maglev table (crates/lb-hashing), and sends it in a GRE tunnel,
-- or answers with ICMP where it does not fit. The control plane (crates/lb-controller) keeps the
-- Maglev tables and the announced addresses in line with the configuration
-- (crates/lb-config-manager) and with the health of the backends (crates/lb-health). The two share
-- the map of tables, which is swapped as a whole, and the map of health.
--
-- Files.
--   Prelude: shared names; lists, tests and masks over the native numbers; `Checked`, code that may
--     panic; `Maps`, the standard library's maps as association lists.
--   Types/Net, Types/Backend, Types/Ttls, Types/Mtu: addresses, and the types of
--     crates/lb-types/src/backend.rs, config.rs and mtu.rs.
--   Types/Packet: crates/lb-types/src/packet.rs. Parsed has the bounds of the readers, Header the
--     parser against the layout of a packet, Buffer the input of the hashes.
--   Hashing: crates/lb-hashing. Table has `LookupTable::build` with a function per loop, Prime, Slots,
--     Seek and Fill why the loops end, Build the results.
--   Health: crates/lb-health/src/state_machine.rs. Runs has the specification by runs of results.
--   Forwarder/Ring, Forwarder/RobinHood: slots modulo a power of two, and the Robin Hood order.
--   Forwarder/ConnTable, Forwarder/FragmentTable: conn_table.rs and fragment_table.rs of
--     crates/lb-forwarder/src. In ConnTable, Defs has the operations, Shape the invariant, Insert and
--     Loop the loop of `insert`, Find that of `get`, Laws and States the results.
--   Forwarder/PacketBuf, Checksum, Gre, MssClamp, Icmp: crates/lb-io/src/lib.rs, and gre.rs,
--     mss_clamp.rs and icmp.rs. Gre/Panics and Icmp/Panics have what keeps the rewriter from a panic,
--     Gre/Mtu the parameters of Types/Mtu against the tunnel.
--   Forwarder/VipMatcher: vip_matcher.rs and steering.rs.
--   Forwarder/Rewriter: rewriter.rs. Steps has `process_one` and its steps, Batch `process_batch`.
--     Laws has its loop, Choice and Passes what the steps do to the counters, Conserved the sum of them,
--     Sample a thread for the tests.
--   Forwarder/ArrayQueue, Forwarder/PacketPool: packet_pool.rs over the queue of the crate crossbeam,
--     which is an interface with its documented behaviour.
--   Forwarder/Threading: threading.rs. Worker has what a rewriter thread does to a frame, Hands what a
--     thread does to the indices it holds, System the threads as actions on one state, Measure and
--     Steps what an action does to the indices, Ownership and Frames the results. Worker/Counters is
--     about the counters of a thread, Worker/Sizes and Fit about the lengths of the frames. Affinity is `resolve_cpu_affinity`.
--   Bgp/Messages, Bgp/Framing: messages.rs of crates/lb-bgp/src, and `take_message` with its loop in
--     speaker.rs; Laws has the results of each, Take what one call takes.
--   Bgp/Session: a peer's session of speaker.rs: `drive` here, `connect` in Connect, `run` in Run. Laws
--     has what a session writes, Deadline its hold timer, Panic its instants, Run/Protocol and
--     Run/Rounds the phases of a peer's task, Run/Pauses its pauses.
--   Bgp/Speaker: `BgpSpeaker` of speaker.rs.
--   Types/BgpConfig: its configuration in crates/lb-types/src/config.rs.
--   Config: crates/lb-config-manager: Validator and Applier.
--   Controller: crates/lb-controller/src/orchestrator.rs. Announce compares what routers hear.
--
-- Conventions. A number of w bits is a native number with its wrap-around written out where the
-- source can reach it. A Duration is a number of nanoseconds, and an Instant one since some start;
-- `duration_since` is 0 for a later instant. An access of a slice that may be out of bounds is
-- `Checked`, with `panic` as a value. Text is its bytes. The hash function (xxh3), the printer of
-- addresses and the concurrent map of health are parameters. Counters of metrics have no bound.
--
-- Concurrency. The threads of the forwarder share the pool, the queues and nothing else that they write.
-- An action of a thread makes one call of a queue at most, which is atomic, and a schedule is any
-- list of actions. A peer's session is asynchronous: its outside is a list of turns, one for each
-- arm of the `select!` that is taken, and its task's one of attempts to connect. What it does is the
-- list of its effects. A sum of an Instant is `Checked`, beyond a last Instant that is a parameter.
--
-- Fuel. The loops of `build` have m passes, since every pass takes a slot, and m steps for each search,
-- since a preference list over a prime m visits every slot. The loops of the two tables visit each slot once, as the source's do. The
-- fold of a checksum has three rounds, enough for 32 bits. The loop over TCP options has one round for
-- each byte of them and one more, since each goes on by a byte; running out would be a panic. The loop
-- over the messages in a session's buffer has a round for each byte, and takes 19 at least in each.
--
-- Not modelled: the start, the pinning, the parking and the joining of threads, and the pipeline of a
-- thread per queue, probes, sockets and the option for TCP MD5, packet I/O, files, metrics
-- registration, the processes and their tools.
pub mod Prelude
pub mod Types
pub mod Hashing
pub mod Health
pub mod Forwarder
pub mod Config
pub mod Controller
pub mod Bgp
