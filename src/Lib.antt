-- ===== src/Lib.antt =====
-- TrafficInspector: a sniffer that reads Ethernet frames from a network card, finds out which
-- protocol they carry, and gives them to the workers of that protocol's processor. The RADIUS
-- workers match responses with requests and count the requests that get no response in time.
--
-- How the parts work together. The main loop takes a packet from the NIC, which fills a free item of
-- a pool with a received frame, asks the tree of dispatchers for the subtree that takes the frame,
-- and hands the item over. A leaf of the tree is a processor: it builds a packet of its protocol over
-- the item, picks a worker by the frame's hash and puts the packet into the worker's queue. A timer
-- thread broadcasts SYNC_TIMEOUT through the tree. A worker takes the packets from its queue.
--
-- Which file models which part:
--   Base                   tests on numbers, lists, the outcomes of C++ code, and texts: `decimal` is
--                          std::to_string of a number
--   Packets/Types, /Wire   include/Packets/BasePacket.h; loads from the receive buffer
--   Packets/Dispatchable   isDispatchableTypeImpl of all packet classes, include/Packets/*.h
--   Packets/Eth, /Ip, /Udp, /Tcp, /Radius
--                          ETHPacket (include/Packets/RawPacket.h, src/Packets/RawPacket.cpp) and the
--                          other classes, in the files of their names: constructors, moves,
--                          sizes and hashes
--   Packets/Avp            the attribute loops of src/Packets/RADIUSPacket.cpp: `parse_raw` is that of
--                          RADIUSPacket(RawPacketsPoolItem &&), `parse_udp` that of
--                          RADIUSPacket(UDPPacket &&)
--   Packets/Avp/Print      std::to_string of an AVPStorage, src/Packets/RADIUSPacket.cpp
--   Packets/Texts          to_string and to_stringImpl of the packet classes, and inetIpToString
--   Dispatcher             IDispatcher, include/Dispatcher/IDispatcher.h and IDispatcher.hpp, for any
--                          leaves: `can_be_dispatchered`, `dispatch`, `dispatch_broadcast`,
--                          `to_string`; Dispatcher/Guarded is the abstract view of a tree as a list
--                          of leaves behind types
--   Processor              the leaf operations of include/PacketProcessor.hpp
--   Worker                 processPacketsThreadImpl of include/PacketProcessor.hpp, and
--                          NotificationData of src/ResultNotifier.cpp; Worker/Ledger is the abstract
--                          view of a RADIUS thread, without map and counters; Worker/System has all
--                          threads of a processor with their queues, and its destructor;
--                          Worker/Reporting has these threads together with the notifier
--   Notifier               ResultNotifier of src/ResultNotifier.cpp, as a step relation
--   Utils/Lock             ObjectQueue under SpinLockPolicy, include/Utils/ObjectQueue.h and
--                          include/Utils/LockPolicies.h, as a step relation over any threads
--   Utils/WaitLock         ObjectQueue under WaitLockPolicy, with the threads counted by place
--   Utils/Pool             include/Utils/CommonObjectPool.h
--   Utils/Interrupt        include/Utils/StaticHelpers.h
--   Lifecycle              include/PacketDispatcher.hpp: initialize, deinitialize, syncThread
--   Router                 include/PacketRouter.hpp
--   Nic                    src/NIC.cpp: initialize, receivePacket
--   Logger                 src/Logger.cpp
--   Program                src/main.cpp: the tree that it builds, and a round of its loop;
--                          Program/Start is all that comes before the loop
--
-- How the state is modelled. A packet owns its pool item by a chain of the lower layers; a moved-from
-- pointer is `none`, and the constructors and assignments return what is left of their source. A
-- pointer into the frame is an offset in the item's buffer of 4096 bytes. A member that the code
-- leaves uninitialised is `none`, and a read of it takes the value that `garbage` of Worker.Settings has
-- for the packet, cut to the width of the variable. An `assert` is a fault where the parameter `ndebug` is false; the build of CMakeLists.txt does not
-- define NDEBUG. The host is little-endian. Machine integers wrap where the code's type does: size_t
-- at 2 ^ 64, uint16_t offsets at 65536, uint8_t lengths at 256, sums of uint32_t at 2 ^ 32.
--
-- Fuel. The loop of `parse_raw` is given one unit more than the buffer has bytes; each round that goes
-- on has read two bytes, so this is never used up. The loop of `parse_udp` takes its fuel from the
-- caller. `digits` is given one unit more than the number, which has no more digits. `depth` is the
-- stack that is free for recursion: only ETHPacket's type test uses it.
--
-- Inputs of the model: what the system calls answer (the socket, recvfrom, the timer, the clocks,
-- fopen, gethostname), the command line, the turns that a worker's thread gets, and the stop flag as
-- each round reads it; in Worker/System the threads and those who put packets take turns in any order.
--
-- Not modelled: the lines that are not logged by the thread of `main` in front of its loop, and the
-- formatting of vfprintf, which only print; a name in gethostname's buffer of 32 bytes that does not
-- fit; that the threads of a moved PacketProcessor go on with the address of the old object; and
-- popPacket, createPacket, createSpecificPacketPtr and
-- getSpecificPacketProcessor, which nothing calls.
pub mod Base
pub mod Packets
pub mod Dispatcher
pub mod Processor
pub mod Worker
pub mod Utils
pub mod Lifecycle
pub mod Router
pub mod Nic
pub mod Notifier
pub mod Logger
pub mod Program
