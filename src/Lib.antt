-- ===== src/Lib.antt =====
-- MiniHFT: a verification library beside the C++ sources of the market-data path.
--
-- A datagram of the feed goes through these parts. include/MoldUdp64.hpp decodes it and puts the
-- messages of one or two feeds in order; include/ItchMessages.hpp decodes each message and
-- dispatches it to a handler; include/ItchBook.hpp, that handler, keeps an order book per
-- instrument (include/L3OrderBook.hpp), with the orders in a pool (include/ObjectPool.hpp) and found
-- through a hash table (include/OrderIndex.hpp), and tells a listener when the top of a book moves.
-- include/RingBuffer.hpp hands values from one thread to another, and
-- include/LatencyHistogram.hpp collects latencies. include/FpgaPipeline.hpp and
-- include/KernelBypass.hpp simulate devices. src/mold_send.cpp reads a file of messages through
-- include/ItchParser.hpp and sends it as such datagrams over include/UdpSocket.hpp, and
-- src/mold_recv.cpp receives them and drives all the parts above. include/Matrix.hpp stands by itself. include/OrderBook.hpp is an older, matching book.
--
-- Base: shared notation, tests, lists, machine words and masks.
-- Ring: `RingBuffer`. Ring has the operations, Ring/Protocol the interleavings of the producer and
--   the consumer as a step relation at sequential consistency, in which each side's load or store
--   of an index is a step. The weaker orderings of the atomics are not modelled. Ring/FetchAdd,
--   Ring/StoreOnly and Ring/Batched are the three queues of bench/RingVariants.hpp, and Ring/Uncached
--   and Ring/Batching compare them with `RingBuffer`.
-- Itch: Itch/Bytes is be16 to be64 and putBe16 to putBe64, Itch/Types the message structs and
--   messageLength, Itch/Decode and Itch/Encode the functions of those names, Itch/Dispatch is
--   `dispatch`, and Itch/Message and Itch/Roundtrip are about encoding followed by dispatch.
-- Mold: Mold/Packet is `decode` and `forEachMessage`; Mold/Frame and Mold/Decode are about them.
--   Mold/Writer is `PacketWriter`; Mold/Written and Mold/Finished are about it.
--   Mold/Sequencer is `Sequencer`, whose call of `deliver` is a list of calls in the result; the
--   modules below it follow its counters and numbers through deliverNew, drainHeld, hold,
--   giveUpGap, onPacket and whole runs.
-- Reader: `ItchReader` of include/ItchParser.hpp, over a parameter for std::fread of which
--   Reader/Ensure states what is relied on (`IsFile`). Reader/Kinds has the table of the types and lengths, and
--   Reader/Framing, Reader/Counters and Reader/Rounds lead to Reader/Refine, about a whole file.
-- Socket: `UdpSocket` of include/UdpSocket.hpp. The system calls are the record `Kernel` of
--   Socket/Calls, and an exception is a result; Socket/Ownership and Socket/Lifetime are about the
--   descriptors, over what `HasDescriptors` says of the calls.
-- Feed: the main loops of src/mold_recv.cpp (Feed/Receive, over the arrivals and times of its rounds)
--   and src/mold_send.cpp (Feed/Send, over the system calls). Feed/Deliver and Feed/Arrived are about
--   a session that arrives in order, Feed/Sent, Feed/Packed, Feed/Filling and Feed/Session about what
--   is sent, Feed/EndToEnd about one behind the other, over what `IsNetwork` says of sendto, and
--   Feed/GapsClosed about the loop at the end.
-- Matrix: `Matrix`, over the operations of its elements. `for_from` is a counting loop, and Matrix/Loops
--   its invariants; Matrix/Cells, Matrix/Products and Matrix/Sums are about the cells.
-- Book: `L3OrderBook`. A pointer to an order is a number in a store, and nullptr is `none`.
--   Book/Levels reads a side as a map from prices; Book/Places, Book/Effects and Book/Updates are
--   about the writes to the levels, Book/Links, Book/Queue and Book/Chains about chains of orders and
--   the queue of a level, Book/Orders, Book/Removed and Book/Reduced about both together, Book/Best about
--   `crossed`.
-- Builder: `BasicItchBookBuilder`, in Builder/Stats, Builder/State, Builder/Change (the private
--   members) and Builder/Handlers. The pool and the index are the interfaces OrderPool and
--   OrderMap of Builder/State, so that what is shown holds for any.
--   A listener is the list of what it has heard; Builder/Listeners has those of bench/Listeners.hpp.
-- Index: `OrderIndex`; Index/Shape is about its capacity, Index/Stays and Index/Erase about its
--   backward shift.
-- Pool: `ObjectPool`, with slots as numbers; Pool/Safety is about its clients.
-- Histogram: `LatencyHistogram`, from the rank on where a percentile is asked for.
-- Matching: `OrderBook`, over parameters for the comparisons of prices and for the clock; the loop of
--   `match` runs on fuel, for which the number of orders is enough.
-- Devices: `FpgaPipeline` and `BasicKernelBypass`, whose operations are atomic steps here, and
--   `softwareProcess` of src/hw_bench.cpp.
-- Report: the options and the JSON strings of bench/BenchCommon.hpp. Report/Json has a strict reader
--   of JSON strings, and Report/Numbers the fuel of a list of numbers, its length.
--
-- Numbers are natural numbers, with the wrap-around of each width written out (Base/Words). Loops
-- are structural, or over the rounds given, but for these on fuel: `fill` of Reader, one round more
-- than the bytes needed, since each std::fread gives a byte or the end; `next` of Reader, for which a
-- round for each message is enough; `give_up_all` of Feed, for which one round more than held packets
-- is; and `width_of` and `shift_down`, 64 rounds for 64 bits, `grow`
-- of Index, 64 rounds since the capacity doubles from 16, and `probe`, `first_empty` and
-- `shift_back` of Index, as many rounds as slots, after which the source would go round again.
--
-- Not modelled: floating point (the mean and the rank of a percentile, include/Statistics.hpp,
-- include/Strategy.hpp), threads and clocks (include/ThreadUtils.hpp, include/Tsc.hpp), the random
-- orders of include/MarketSimulator.hpp, the Windows sockets of include/Network.hpp, the pacing,
-- options and printed results of src/mold_send.cpp and src/mold_recv.cpp, the file that bench/BenchCommon.hpp
-- writes, and the other programs of src and bench.
pub mod Base
pub mod Book
pub mod Builder
pub mod Histogram
pub mod Matching
pub mod Index
pub mod Itch
pub mod Mold
pub mod Pool
pub mod Devices
pub mod Matrix
pub mod Report
pub mod Socket
pub mod Feed
pub mod Reader
pub mod Ring
