-- ===== src/Lib.antt =====
-- mavtables is a router and firewall for MAVLink packets. Bytes that arrive on an interface are parsed
-- into packets; a packet is sent on every connection, each of which asks the firewall's filter whether
-- and with what priority to queue it; and the interface takes packets out of the queues.
--
-- The files, with the sources that they model (paths from the repository's root):
--   Prelude       names of the libraries, lists, Boolean tests, integers, bits; the exceptions, of which
--                 fuel_exhausted alone is not the program's, and undefined_behaviour stands for a read
--                 of something that is not there
--   Text          what std::istringstream reads as a number, and how numbers are printed
--   MavAddress    src/MAVAddress.cpp: an address of a system ID and a component ID
--   MavSubnet     src/MAVSubnet.cpp: an address and a mask; boost::tokenizer is a parameter, and the
--                 record Splits says what is relied on
--   Mavlink       src/mavlink.cpp; the tables of the MAVLink C library are the record Library
--   PacketV1, PacketV2, Packet
--                 src/PacketVersion1.cpp, src/PacketVersion2.cpp, src/Packet.cpp: a packet is its bytes;
--                 the constructors check them, and the accessors read the header and the payload
--   PacketParser  src/PacketParser.cpp: parse_byte is a step on the record of the four members; feed
--                 runs it over a list of bytes
--   QueuedPacket, PacketQueue
--                 src/QueuedPacket.cpp, src/PacketQueue.cpp: tickets wrap around at 64 bits; every
--                 operation is one step, as it holds the mutex, and gives the signals that it sends
--   AddressPool   src/AddressPool.hpp: the map is a list in the order of its keys, and every operation
--                 is given the time that it reads from the clock
--   Action, If, Rule, Chain, Filter
--                 src/Action.cpp, src/If.cpp, src/Accept.cpp, src/Reject.cpp, src/Call.cpp,
--                 src/GoTo.cpp, src/Chain.cpp, src/RecursionGuard.cpp, src/Filter.cpp: the firewall.
--                 Chains stand on a heap, rules name them by address, and evaluating a chain marks it
--                 with the thread for as long as the guard lives. The evaluation runs on fuel, one more
--                 than there are chains, since each level of it marks another chain. Chain.Ideal says
--                 what the rules mean with no heap, no threads and no guard.
--   Connection    src/Connection.cpp: send is a step on the pool of addresses and the queue; the filter
--                 is a parameter, as its answer on an address or an exception
--   ConnectionPool
--                 src/ConnectionPool.cpp: send over a store of connections, some of which no longer exist;
--                 a weak pointer is an index into the store
--   IpAddress     src/IPAddress.cpp; boost::split is a parameter, as above, and so is getaddrinfo
--   Semaphore, ConnectionFactory
--                 src/semaphore.cpp, src/ConnectionFactory.hpp: the semaphore that the queues of the
--                 connections of an interface notify; none stands for a thread that waits
--   UdpInterface  src/UDPInterface.cpp: update_connections, receive_packet and send_packet are steps on
--                 the interface and the Network, the pool and the store that all interfaces share. They
--                 give the signals of the queues, and hear brings the callbacks to the semaphore
--   SerialInterface
--                 src/SerialInterface.cpp: an interface with one connection
--   Ast, ConfigParser
--                 src/ConfigParser.cpp: from the syntax tree, a Node, to the chains on their heap, the
--                 filter, and, in ConfigParser.Interfaces, the interfaces and the network.
--                 ConfigParser.Meaning says what a file says, with no map of chains and no errors
--   Interface     src/Interface.hpp: receive_packet and send_packet of an interface of either kind, over the
--                 Network that all share
--   ParseTree     src/parse_tree.hpp, src/config_grammar.cpp: the stack of nodes, as steps on the calls
--                 of PEGTL's matcher, and the printing of the tree
--   InterfaceThreader
--                 src/InterfaceThreader.cpp, src/App.cpp: the two threads of an interface and their
--                 owner, as a step relation in which they take turns in any order
--   UnixUdpSocket, UnixSerialPort
--                 src/UnixUDPSocket.cpp, src/UnixSerialPort.cpp: what a system call returns is an
--                 argument, and the calls that are made are listed
--   Options, Main, Utility
--                 src/Options.cpp, src/mavtables.cpp, src/utility.hpp, src/Logger.cpp
--   Examples      concrete inputs, and the theorems at these inputs
--
-- Of the interleavings of threads, those of an interface's two threads with their owner are modelled; the
-- other operations that take a lock are single steps, and one thread evaluates the chains, while the
-- recursion data may hold others. Not modelled are the grammar of the configuration, which is written for
-- a parser library that is not in the repository, the system calls, and the texts of exceptions.
pub mod Prelude
pub mod Text
pub mod MavAddress
pub mod MavSubnet
pub mod Mavlink
pub mod PacketV1
pub mod PacketV2
pub mod Packet
pub mod PacketParser
pub mod QueuedPacket
pub mod PacketQueue
pub mod AddressPool
pub mod Action
pub mod If
pub mod Rule
pub mod Chain
pub mod Filter
pub mod Connection
pub mod ConnectionPool
pub mod IpAddress
pub mod Semaphore
pub mod ConnectionFactory
pub mod UdpInterface
pub mod SerialInterface
pub mod Ast
pub mod ConfigParser
pub mod Interface
pub mod ParseTree
pub mod InterfaceThreader
pub mod UnixUdpSocket
pub mod UnixSerialPort
pub mod Options
pub mod Utility
pub mod Main
pub mod Examples
