-- ===== src/Lib.antt =====
-- Verification of caf::net, the network layer of the CAF incubator: actors exchange messages with
-- other nodes over BASP, and applications speak WebSocket or length-prefixed messages, each over
-- layers on top of a stream socket. All paths below are paths of the repository, under libcaf_net.
--
-- Parts, from the socket upwards, and the files that model them:
--   * StreamTransport: caf/net/stream_transport.hpp, the event handlers of a stream socket. It reads
--     into a buffer and hands the bytes to its upper layer, which tells how many it took and, by
--     configure_read, how many it wants next. Net/Down is the part that an upper layer sees of it:
--     the output buffer, the sizes of the next read, the events that were registered and the abort
--     reason. StreamTransport/Buffer is about the incoming bytes,
--     StreamTransport/Output about the outgoing ones, StreamTransport/Excess
--     about more pending bytes than are asked for.
--   * Multiplexer: src/multiplexer.cpp, caf/net/multiplexer.hpp and src/socket_manager.cpp, which
--     sockets are polled for which events, and what is done with the events that are reported.
--     Registering is about the masks and the pollset, Scanning about handlers that register.
--     Multiplexer/Control has the loop over poll and the shutdown, Multiplexer/Pipe the calls of other
--     threads with caf/net/pollset_updater.hpp and src/pollset_updater.cpp at the other end.
--   * LengthPrefix: caf/net/length_prefix_framing.hpp. Send is about begin_message and end_message,
--     Receive is about the turns of the loop of consume, and Progress about whole calls.
--   * WebSocket/Rfc6455: caf/detail/rfc6455.hpp and src/detail/rfc6455.cpp, frames as bytes.
--     WebSocket/Framing: caf/net/web_socket/framing.hpp, messages over such frames. Loop is about
--     the loop of consume, Wire about one frame, Messages about whole messages, Sending about what
--     is written.
--     WebSocket/Http and WebSocket/Handshake: caf/net/web_socket/handshake.hpp and
--     src/net/web_socket/handshake.cpp, the HTTP messages of an opening handshake as lines of a text.
--     Request and Response are about what is written, Accepted about what a client accepts, Header
--     about where a header ends.
--     WebSocket/Server, WebSocket/Client: caf/net/web_socket/server.hpp and client.hpp, on top of the
--     framing as a Layer, a record of operations. WebSocket/Opening puts the two together.
--   * Basp/Header: caf/net/basp/header.hpp, src/header.cpp and caf/net/basp/constants.hpp.
--   * Basp/MessageQueue: caf/net/basp/message_queue.hpp and src/message_queue.cpp, which brings
--     the messages that workers deserialize back into the order in which they arrived.
--   * Basp/Application: caf/net/basp/application.hpp and src/net/basp/application.cpp, the state
--     machine of a connection, with caf/net/basp/remote_message_handler.hpp and src/worker.cpp.
--     System is the state and what the CAF core library is asked, Handlers the handlers of
--     messages, Protocol the state machine and the other entry points.
--   * Datagram: caf/net/transport_base.hpp and caf/net/datagram_transport.hpp. Workers has
--     caf/net/transport_worker.hpp and caf/net/transport_worker_dispatcher.hpp, Events the handlers of
--     the transport. Steps has the events in any order, Soundness is about the queue of packets and
--     the caches, Routing about the endpoints that packets go to.
--   * EnumStrings, Basp/MessageType, Basp/Ec, Basp/ConnectionState, Net/Operation: the enumerations
--     and src/net/basp/message_type_strings.cpp, src/net/basp/ec_strings.cpp,
--     src/net/basp/connection_state_strings.cpp and src/net/operation_strings.cpp.
--   * Prelude and Bytes: lists, tests and bytes that all parts share.
--
-- How code and model correspond: a class is a record of its member variables, a member function is a
-- function from the record to its result and the new record, under the name that it has in the code;
-- the branches and early returns are those of the code, in its order. An upper layer is a parameter
-- with a state of its own. A result of type error is an Option, and a result that is negative on
-- failure is a data type. A value of an enumeration is the number that it is cast to, since a value
-- that is read from the wire may be none of the enumerators. Bytes are numbers; integers of w bits
-- are reduced modulo 2^w where the code converts or increments them.
--
-- Parameters stand for code outside of the repository: NetworkOrder for the conversion of byte order
-- of the CAF core library, whose laws are those of network byte order, with big_endian as an instance;
-- Core for the serializers, registries and workers that the BASP application uses; Digest for base 64
-- and SHA-1, and Settings for the dictionaries of the settings; Socket for the
-- operating system.
--
-- Loops: the loops over an input recurse on fuel, and start with one more than the length of the
-- input; each turn takes two bytes or more, so that the fuel never ends. The loop over reads recurses
-- on the number of reads that it may still do, as in the code.
--
-- Not modelled: endpoint managers, actor shells and proxies, the blocks of libcaf_bb, the
-- middleman with its backends, and the wrappers of socket calls.
pub mod Prelude
pub mod Bytes
pub mod Basp
pub mod Net
pub mod EnumStrings
pub mod WebSocket
pub mod LengthPrefix
pub mod StreamTransport
pub mod Multiplexer
pub mod Datagram
