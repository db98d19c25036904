-- ===== src/Lib.antt =====
-- A verification library for qperf-go, a QUIC performance test tool.
--
-- A client opens a connection to a server and measures what it receives; the connections run under
-- congestion controls of the program's own. The largest is BBR (internal/congestion/bbr): the sender
-- decides how much may be in flight and at which rate; its bandwidth sampler turns acknowledgements
-- into bandwidth samples; a windowed filter keeps the best samples; the sampler stores what it knows
-- of packets in a queue indexed by packet number, which stands on a growing ring buffer; a pacer
-- (internal/congestion/common) spreads the packets over time. Brutal keeps a fixed rate, Cubic and
-- Reno follow losses, and the RL sender obeys an agent that it exchanges messages with. The library
-- follows these parts:
--
--   Prelude         Booleans, lists, signed integers, int64 and uint64 arithmetic that wraps (Words),
--                   times and durations (Time), float64 as a parameter (Float) and thousandths that
--                   stand in for it in examples (FixedPoint)
--   RingBuffer      internal/congestion/bbr/ringbuffer.go: RingBuffer[T]; Inv is the invariant, Window
--                   what the buffer holds, Grow the growing, Refine each method, Model call sequences
--   PacketQueue     internal/congestion/bbr/packet_number_indexed_queue.go: packetNumberIndexedQueue[T]
--   WindowedFilter  internal/congestion/bbr/windowed_filter.go: WindowedFilter[V, T] and its comparators
--   Pacer           internal/congestion/common/pacer.go: Pacer
--   Bandwidth       internal/congestion/bbr/bandwidth.go: bandwidths and the bytes that they move
--   AckPoints       internal/congestion/bbr/bandwidth_sampler.go: recentAckPoints and chooseA0Point
--   AckHeight       the same file: maxAckHeightTracker
--   Sampler         the same file: bandwidthSampler; Ack is onPacketAcknowledged, Event is
--                   OnCongestionEvent; Safety, Accounting, Sent and AppLimited are proofs
--   Bbr             internal/congestion/bbr/bbr_sender.go: bbrSender; Target, Modes, Cycle, Recovery,
--                   Windows, PacingRate and Event hold its methods, ModeLaws, ProbeLaws, WindowLaws,
--                   LimitLaws, Frame, EventLaws, RecoveryLaws and Reach the proofs
--   Brutal          internal/congestion/brutal/brutal.go: BrutalSender; Recent, Slots and Rate prove
--                   what the ack rate is
--   Cubic           internal/congestion/cubic/cubic.go: Cubic; Curve is its exact value, Growth one
--                   acknowledgement, Epoch a whole epoch, Concrete the examples' float32
--   CubicSender     internal/congestion/cubic/cubic_sender.go: cubicSender; Events holds the handlers,
--                   Calls their sequences, Limits, Cutbacks, Acks and Reach the limits of the window,
--                   Cutback and Once the single reduction for one flight
--   Rl              internal/congestion/rl/rl.go and mq.go: RLSender and QuicMqManager; Steps holds the
--                   goroutines, Delivery and Drain the proofs
--   Protocol        internal/protocol/protocol.go: packet types and ECN; Bits is the round trip
--   State           common/state.go, time_utils.go and state_tracer.go: State; Calls are sequences of
--                   its methods, Reports the accounting, Steps each call, Outcomes the theorems
--   ByteCount       common/byte_count_parser.go: ParseByteCountWithUnit; Texts and Parse are proofs
--   Addr            common/addr_utils.go: ParseResolveHost; Port is its proof
--   Store           common/single_token_store.go and single_session_cache.go
--   Log             common/log.go: defaultLogger
--   Server          server/server.go, qperf_server_session.go and qperf_server_stream.go; Data is
--                   generatePRData, Session the closing of a session
--   Client          client/client.go: Client, on top of State; History is its proof
--
-- A method that changes its receiver is a function that returns the new value; a returned pointer is
-- the value that it points at, and nil is `none`; a panic is `none`. Names are the source's, in snake
-- case. Integers wrap where Go's do. A map key, an index and a position are checked where Go checks.
--
-- Loops are structural recursion, or recursion on fuel: a queue or a buffer is popped at most as often
-- as it has elements, which is the fuel given, and the theorems hold for the functions with that fuel.
--
-- Goroutines are steps that interleave: of the RL sender, of the client's reads and reports, and of the
-- streams of a session. A mutex or a sync.Once makes a method one step.
--
-- quic-go is not part of the repository: its constants are the record `Bbr.Constants` or arguments,
-- what the RTT statistics and the random generator answer stands in an `Event` or is an argument, and
-- its packet lists are lists of records with the two fields that are read. What the cubic package uses
-- and no file declares is the record `CubicSender.Undeclared`. Of `float64` and `float32` operations
-- the Cubic theorems assume that a product with 0.7 does not grow and that the Reno growth, for fewer
-- than 2^40 bytes and a Reno window that is not empty, is neither negative nor more than a datagram for
-- each byte (`Shrinks`, `Grows`), and of the cube root that it rounds down (`Cubes`); the other theorems
-- assume nothing of them. `fmt.Printf` and `net.SplitHostPort` are arguments, of which the theorems
-- assume what they do with a text without percent signs and with one without brackets.
--
-- `Offset` takes any `int`, and a packet lookup panics where packet numbers are 2^63 apart: lookups
-- return an optional answer, and the theorems of the sampler and of BBR ask for the invariant of the
-- packet queue, which packet numbers below 2^62 keep.
--
-- Not modelled: the command line (main.go), which declares flags; listening, dialling, TLS, HTTP/3,
-- Redis, JSON and files, which are calls of libraries; event_tracer.go, migration_tracer.go,
-- 0rtt_utils.go, qstream.go and other wrappers, which pass calls on; printing; in the
-- modelled files, empty methods, getters of single fields, and the fields that the source marks as
-- not used.
pub mod Prelude
pub mod Protocol
pub mod RingBuffer
pub mod Rl
pub mod Log
pub mod PacketQueue
pub mod WindowedFilter
pub mod Pacer
pub mod Addr
pub mod Bandwidth
pub mod AckPoints
pub mod AckHeight
pub mod Sampler
pub mod Server
pub mod State
pub mod Store
pub mod Bbr
pub mod Brutal
pub mod ByteCount
pub mod Client
pub mod Cubic
pub mod CubicSender
