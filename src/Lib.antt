-- ===== src/Lib.antt =====
-- A verification library of sponge, a user-space TCP stack (sponge/libsponge) written for the
-- course CS144.
--
-- The program. A `TCPConnection` owns a `TCPSender` and a `TCPReceiver`. The receiver turns the
-- 32-bit sequence numbers of arriving segments into absolute ones (`unwrap`) and hands the
-- payloads to a `StreamReassembler`, which merges substrings that arrive in any order, twice or
-- overlapping, and writes them in order to a `ByteStream`. The sender reads its own `ByteStream`,
-- cuts it into segments within the window of the peer, keeps those in flight and sends the oldest
-- again on a timer that backs off. `TCPState` summarizes both for the tests. A `ByteStream` keeps
-- its bytes in a `BufferList`, a queue of shared strings with an offset. Below TCP, a `Router`
-- picks the interface and the next hop of a datagram by the longest matching prefix; segments
-- travel in `IPv4Datagram`s (`TCPOverIPv4Adapter`), datagrams in `EthernetFrame`s, and each of these
-- is read by a `NetParser` and guarded by an `InternetChecksum`.
--
-- The files. Each module stands for the pair of files of the same name.
-- - WrappingIntegers: sponge/libsponge/wrapping_integers.hh and .cc.
-- - Buffer, BufferList: sponge/libsponge/util/buffer.hh and .cc. `Buffer.remove_prefix` and
--   `BufferList.remove_prefix` return `none` where the source throws `out_of_range`.
-- - ByteStream: sponge/libsponge/byte_stream.hh and .cc. Children: Queue (one operation at a
--   time), History (any sequence of calls).
-- - StreamReassembler: sponge/libsponge/stream_reassembler.hh and .cc. The `std::set` is a list
--   in the order of `begin`; each loop of `push_substring` is a function of its own. Children:
--   Slices (pieces of a stream), Merge (`merge_block`), Blocks, Rounds, Loops and Insert (the
--   loops and the set), Stream (what the reassembler holds of a stream), Outcome and Push (one
--   call), Arrivals (any sequence of calls), Faults (two inputs that go wrong).
-- - Parser: sponge/libsponge/util/parser.hh and .cc, `NetParser` and `NetUnparser`, with
--   `ParseResult`. Children: Laws (what is written is read back), Errors (which errors arise).
-- - InternetChecksum: the class of that name in sponge/libsponge/util/util.hh and .cc.
-- - TcpConfig, TcpHeader, TcpSegment, Ipv4Header, Ipv4Datagram, EthernetHeader, EthernetFrame,
--   ArpMessage, TcpOverIp: sponge/libsponge/tcp_helpers/tcp_config.hh, tcp_header, tcp_segment,
--   ipv4_header, ipv4_datagram, ethernet_header, ethernet_frame, arp_message and tcp_over_ip, .hh
--   and .cc. A `serialize` is `none` where the source throws; a `parse` returns the result, the
--   object and the parser after the call. CodecExamples has their tests.
-- - TcpReceiver, TcpSender, TcpConnection: sponge/libsponge/tcp_receiver, tcp_sender and
--   tcp_connection, .hh and .cc; TcpState: sponge/libsponge/tcp_helpers/tcp_state.hh and .cc.
--   TcpConnection's children: Cases (the branches of the calls), Emits (what each call sends),
--   Shutdown and Resets (how a connection ends), Runs (all calls), Sound (its sender),
--   Opening and Handshake (how it begins). TcpReceiver's children: Counted,
--   Stream (the bytes), Taken and Acks (the acknowledgment number).
--   TcpSender's children: Fill (the loop of `fill_window` ends), Chain, Sends, Cut and Stream (what
--   it sends), Window (how much of it), Acks and Answers (acknowledgments), Timer, Sound and Runs
--   (the segments in flight, over any sequence of calls).
-- - Router: sponge/libsponge/router.hh and .cc, the table and the decision on one datagram.
--   Children: Longest (the longest match), Interfaces (`AsyncNetworkInterface`, `Router` and
--   `route`), Delivery, Routing and Total (`route` as what each interface sends).
-- - NetworkInterface: sponge/libsponge/network_interface.hh and .cc. A call returns, throws or ends
--   in undefined behaviour (`Outcome`), as it does where a loop steps an iterator whose element
--   was erased. Children: Sound and Runs (the two maps over any sequence of calls), Learn and
--   Ready (`recv_frame`), Expiry and Clock (`tick`), Sending (`send_datagram`), Resolve and Exchange (request and
--   reply between two interfaces).
-- - TcpOverEthernet, TcpOverUdp, LossyFdAdapter: sponge/libsponge/tcp_helpers/tuntap_adapter.hh and
--   .cc, fd_adapter.hh and .cc, lossy_fd_adapter.hh. What a device or socket reads is an argument,
--   what it writes a result, and the random generator a parameter.
-- - TcpOverTun: the adapter over a TUN device of tuntap_adapter.hh. LossyFdAdapter's child Laws: what
--   no loss means.
-- - SystemCall: `unix_error` and `SystemCall` of sponge/libsponge/util/util.hh and .cc, and the
--   interface to the kernel, `Kernel`, a record of the system calls over a state of its own.
-- - FileDescriptor, Socket: sponge/libsponge/util/file_descriptor.hh and .cc, socket.hh and .cc. An
--   operation takes the state of the kernel and gives it back, with the descriptor and what is
--   returned or thrown (`Attempt`). Children: Laws, Effects (the contract of the kernel, and what
--   reads and writes move under it), Logged (a kernel for the tests).
-- - EventLoop: sponge/libsponge/util/eventloop.hh and .cc. What the callbacks share is a type, and `poll`
--   a parameter. Children: Keeps (what a wait keeps), Rounds (its results), Handled (the order).
-- - StreamCopy: sponge/apps/bidirectional_stream_copy.cc, on the event loop. Children: Piped (one
--   direction), Calls (one callback), Fifo (the whole run).
-- - SpongeSocket: sponge/libsponge/tcp_helpers/tcp_sponge_socket.hh and .cc; the adapter is a parameter, the
--   record `DatagramAdapter`. Children: Callbacks, Starts (`connect`).
-- - Prelude: shared names, lists and options over native numbers, Boolean tests, maps with numbers
--   as keys (Maps) and machine words (Words). Each component's tests and the runs of its theorems stand in its child Examples.
--
-- Numbers. A byte is a number, a string a list of them. A `size_t`, `uint64_t`, `uint32_t` or
-- `uint16_t` is a number and each operation on it is reduced modulo 2^64, 2^32 or 2^16 as the
-- source's is (`add64`, `sub64`, `add32`, `sub32`); a signed result is its bit pattern. Theorems
-- name the bounds they need, such as an index below 2^62, in their hypotheses.
--
-- Loops. The two merging loops of `push_substring` take fuel, the number of stored blocks; each
-- round erases one block, so the loops always end by their own condition, which Loops shows.
-- `fill_loop` of TcpSender takes two more than the bytes of its stream as fuel: each segment takes
-- a byte of the stream, or is the last one, with FIN, as Fill shows. The loop of `InternetChecksum::value` takes two
-- rounds, which bring any 32-bit sum below 2^16. The other loops are recursions on the lists that
-- they consume.
--
-- The loop of `FileDescriptor::write` takes one more than the bytes as fuel: each round but the last takes
-- one at least, as Laws shows. The loops around `wait_next_event` run for a given number of waits,
-- since they may wait for ever; what is shown of them holds for every number.
--
-- Not modelled: what prints; the flags and options that only the kernel keeps; the threads: the
-- owner of a TCPSpongeSocket acts on it through the kernel and a flag, and the start and the join of
-- its thread are left out; addresses and devices, which are calls of the resolver and of ioctl; the
-- applications but the copy of streams, which are command lines around the library, and the tests. The
-- random number that picks an initial sequence number is an argument.
pub mod Prelude
pub mod WrappingIntegers
pub mod Buffer
pub mod BufferList
pub mod ByteStream
pub mod StreamReassembler
pub mod TcpConfig
pub mod TcpHeader
pub mod TcpSegment
pub mod TcpReceiver
pub mod TcpSender
pub mod TcpState
pub mod TcpConnection
pub mod Parser
pub mod EthernetHeader
pub mod InternetChecksum
pub mod EthernetFrame
pub mod ArpMessage
pub mod Ipv4Header
pub mod Ipv4Datagram
pub mod TcpOverIp
pub mod CodecExamples
pub mod NetworkInterface
pub mod Router
pub mod SystemCall
pub mod FileDescriptor
pub mod EventLoop
pub mod Socket
pub mod StreamCopy
pub mod SpongeSocket
pub mod TcpOverEthernet
pub mod TcpOverUdp
pub mod TcpOverTun
pub mod LossyFdAdapter
