-- ===== src/Lib.antt =====
-- The capture engine of pacsni: the program under cpp/, which captures frames with pcap, dissects
-- them, and sends a record of 1024 bytes for each to the packet service under rust/.
--
-- The program's parts. pcap calls packet_handler (cpp/packet_capture.cpp) for each frame; it copies
-- the first 256 bytes and puts them into a LockFreeQueue (cpp/packet_types.h). Worker threads take
-- them out, run dissect_raw_packet, and put the records into a second LockFreeQueue, from which a
-- sender thread takes them and writes them to a TLS connection, each with an HMAC behind it. The
-- packet service (rust/packet_service/src/handlers.rs) checks the HMAC and reads the record.
-- dissect_raw_packet calls the parsers of the three header layers and
-- then, by EtherType, protocol and port, one of the dissectors (cpp/protocol_dissectors.cpp and the
-- first half of cpp/packet_capture.cpp).
--
-- The files, each of which has the proofs about it in its folder:
--   Prelude    library names and shared lemmas; Outcome is what C code does, Loop a loop on fuel
--   Memory     bytes, reads and writes of arrays, memcpy, memcmp, strlen and snprintf
--   Packet     the structs of cpp/packet_types.h and cpp/protocol_dissectors.h; Info is what the
--              types of PacketInfo allow
--   Layers     parse_ethernet_layer, parse_ip_layer, parse_transport_layer
--   Dissect    the dissectors and statistics of cpp/protocol_dissectors.cpp, one child for each
--   Ring       LockFreeQueue as one thread runs it; Fifo is the bounded queue that it implements;
--              Threads has several threads, an access of shared memory at a time
--   Capture    cpp/packet_capture.cpp: Text has its small dissectors, Network and Raw the parts of
--              dissect_raw_packet, Options parse_tcp_options, Handler packet_handler, Worker
--              worker_thread_main; of dissect_raw_packet, Frame, Fields and Record have what all
--              branches leave alone, Ranges the ranges of the members, Returns the frames for
--              which it returns, Arp the addresses of the ARP branch, and KeepAlive the TCP branch;
--              Handler/Queue is what packet_handler does to the queue, Handler/Captures has it called
--              for frame after frame, Handler/OverRead with frames that are too long, and
--              Worker/Captures between the rounds of a worker
--   Send       the rest of cpp/packet_capture.cpp: send_packet_info, Layout the bytes of a record,
--              Sender sender_thread_main, Service what the packet service reads; Sender/Pipeline and
--              Sender/Captures have all parts from the frames to the service
--   Start      main: its checks, the choice of the interface, the loop that connects, and the end;
--              Stats is monitor_pcap_stats
--   Tests      the theorems at concrete inputs
--
-- How C is modelled. A function has the name of the C function, and a function that is a part of
-- one says so in its comment. A pointer to bytes is the list of the bytes from it to the end of its
-- array, or an offset into the captured bytes; an output parameter is an argument and a result. A
-- function returns, faults (an access outside of an array, which is undefined behaviour) or
-- diverges (its fuel is used up). Conversions to uint8_t, uint16_t, uint32_t and size_t are
-- remainders; an int that may be negative is an integer. Reads of two and four bytes are in network
-- order. The branches for Windows are left out.
--
-- Fuel. A loop over the bytes of a payload has one round for each byte, or one more, since every
-- round but the last moves on by a byte; the loop over VLAN tags has one round more than the array
-- has bytes. The theorems that a function returns show that this is enough. The loop over IPv6
-- extension headers is bounded by ten in the code. In the queue the number of rounds is the number
-- of times that compare_exchange_weak fails for no reason, which is an argument. The loop over
-- SSL_write has no bound in the code; what send_packet_info does within `f` rounds is stated for
-- every `f`, and where a connection asks for a write again at most `limit` times in a row, more than
-- 1088 * (limit + 1) + limit rounds are enough.
--
-- Threads. Ring/Threads interleaves the accesses of any number of threads in any order. The loops of
-- the worker and of the sender run alone, one worker (of the four that main starts) and behind it the
-- sender: what the other threads put into a queue before each round, and the reads of keep_running,
-- are arguments. OpenSSL is the record Tls, and what is used of it the laws IsWriter, IsStream (with
-- the bound on what is asked for again) and IsSteady; the network is a function that cuts the bytes
-- into reads. pcap_loop calls packet_handler for one frame after the other.
--
-- Not modelled: memory orders; the signal handler; main's environment
-- variables and socket options; the programs under go/, and of rust/ all but the reads of
-- handle_cpp_connection. The floating-point operations of the entropy are a parameter, Floats, and what
-- the system, OpenSSL and pcap answer to main's calls is the record World.
pub mod Prelude
pub mod Memory
pub mod Packet
pub mod Layers
pub mod Dissect
pub mod Capture
pub mod Ring
pub mod Send
pub mod Start
pub mod Tests
