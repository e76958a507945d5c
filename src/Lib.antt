-- ===== src/Lib.antt =====
-- A verification library for a game server in C++: the core library ServerCore and the game logic
-- of GameServer.
--
-- Parts of the program, and the files here that model them.
-- * Receiving (ServerCore/RecvBuffer.cpp, Session.cpp): Net/RecvBuffer is the buffer with its two
--   cursors; Net/Packet is the loop of `PacketSession::OnRecvCompleted` and `MakeSendBuffer` of
--   GameServer/ClientPacketHandler.h; Net/Recv is `Session::ProcessRecv`, `RegisterRecv` and
--   `Disconnect`. Bytes are numbers below 256 where a header is read; the body of a packet is
--   whatever protobuf wrote, and one that does not fit a chunk of send buffers is a crash. Calls of Winsock and packets handed to the contents are events in
--   order. A copy between overlapping regions is undefined behaviour and has its own outcome.
-- * Sending (Session.cpp): Net/Send splits `Send`, `RegisterSend` and `ProcessSend` at their locks
--   and atomics into steps, which the threads of a session take in any order.
-- * Locks (ServerCore/Lock.cpp): Threads/Lock is the packed lock word, one attempt a step;
--   Threads/Lock/Spec is the policy that the README promises.
-- * The detector of deadlocks (ServerCore/DeadLockDetector.cpp): Threads/Detector. Exceptions are
--   results.
-- * Jobs (ServerCore/JobQueue.cpp, LockQueue.h, GlobalQueue.cpp, ThreadManager.cpp, JobTimer.cpp):
--   Jobs/Queue has the steps of pushers and workers, Jobs/Timer the queue of delayed jobs.
-- * Memory (ServerCore/PoolManager.cpp, MemoryPool.cpp, SendBuffer.cpp, SlabMemoryManager.cpp,
--   SlabPool.cpp): Memory/PoolManager is the table of pools and the blocks of one pool,
--   Memory/SendBuffer the chunk of a thread, the stock of chunks and the buffers that are in use,
--   Memory/Slab the slabs of a thread for one size of blocks with the pool that all threads share,
--   Memory/Slab/Sizes the tables of the sizes. Reference counts are the lists of what is in use.
-- * The world (GameServer/Map.cpp, Room.cpp, Zone.cpp, ObjectManager.cpp): World/Map has the walls,
--   which `LoadMap` reads, and the objects on the cells of a room, World/Path `FindPath` and `CalculatePath`, World/Room the
--   zones, `ApplyMove` and `ApplyLeave`, World/Room/Adjacent who is near a cell and the broadcasts.
--   World/Grid has vectors of vectors, where an index out of range is undefined.
-- * Items (GameServer/Item.cpp, Inventory.cpp, Player.cpp): Items/Item, Items/Inventory and
--   Items/Player with the three item packets, Items/Reward what a monster leaves (Monster.cpp,
--   DBSerializer.cpp). What is sent and saved is a list of notices. A slot of a packet is
--   cut to the 16 bits of a key. Data sheets come from files and
--   are a parameter.
-- * Actors (GameServer/GameObject.cpp, Monster.cpp, Arrow.cpp, ViewCube.cpp): Actors/Facing has
--   directions, Actors/Damage what a hit does, Actors/Moves and Actors/Skill
--   the move and the skill packet of a player (Room.cpp),
--   Actors/Monster the state machine of monsters, where what it reads of the rest of the server in one
--   call is a scene, Actors/Arrow the flight of an arrow, Actors/Crowd `Enter` and `Leave` of a room
--   (Room.cpp) with who is in it, Actors/View what a player's view tells its client, and
--   what the client makes of that and of the spawns and despawns that are broadcast.
-- * Client sessions (GameServer/GameSession.cpp, ClientPacketHandler.cpp): Game/Outbox has the packets
--   that wait for their flush, as steps of several threads, Game/Session the packets before a player
--   plays, Game/Dispatch the way from the id of a packet to its handler, which returns,
--   crashes or throws, Game/Heartbeat the pings
--   (Heartbeat.cpp). The answers of the database
--   are a parameter, a new one for each packet, and so is protobuf's parser.
-- Interaction: the bytes that Net/Recv cuts into packets go through Game/Dispatch, either to Game/Session
-- or as a job of Jobs/Queue to a room, so that the operations of World, Actors and Items run one after
-- another; what they send is reserved in Game/Outbox, in send buffers of Memory/SendBuffer that
-- Net/Send hands to the socket. A player that Game/Session lets in enters the room of Actors/Crowd, and
-- Actors/View and the broadcasts of World/Room/Adjacent read the same zones. Base has what all parts
-- share: Boolean tests and lists over native numbers, maps as association lists, and integers.
--
-- Bounds and fuel. The receiving loop runs on fuel: one round a byte is enough unless a header
-- announces size 0. The search of the detector has fuel one above the number of owners, which is
-- enough. The loops that fill the size tables have fuel for 64 or 17 rounds and need no more. FindPath
-- has fuel of one round for each cell of the square around its destination, and two, which is enough;
-- of several equal cells in its queue the first is taken, and a hash map is a list in the order of
-- insertion. The sweep of slabs has a round for each slab. `int32` coordinates are integers and do not
-- wrap around here; `uint16` and `uint32` fields do, with their remainders written out; offsets,
-- healths, damages and counts that are never negative are natural numbers. The lock is followed for
-- fewer than 2^16 calls, the range of its counters. Names in Game/Session are numbers.
--
-- Not modelled: Winsock and IOCP, the calls of ODBC, protobuf's generated code, the reading of files
-- (`LoadMap` is given the lines),
-- the dummy client and the packet generator, which are calls of other systems and generated code; the
-- room manager, `OnDeadAnim`, and what a session does with its player when it ends, which are left.
pub mod Base
pub mod Net
pub mod Threads
pub mod Jobs
pub mod World
pub mod Items
pub mod Memory
pub mod Actors
pub mod Game
mod Tests
