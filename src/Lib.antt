-- ===== src/Lib.antt =====
-- Globed, the multiplayer client: its wire format, its encryption, its sockets, its connection, its
-- managers, its voice chat and the interpolation of players.
--
-- The program. A packet is an object of a class that knows its id, whether it is encrypted and
-- whether it goes over TCP. `GameSocket` writes its header and its members into a `ByteBuffer`,
-- encrypts the members in place, puts the length in front of a TCP packet and hands the bytes to
-- `TcpSocket` or `UdpSocket`; on the way in it reads the length, the header, decrypts in place and
-- has the class decode its members. A `ByteBuffer` is bytes and a position; what it can read and
-- write is chosen by type, and structs are walked member by member.
--
-- Where each part is modelled, and from which file of the repository:
--   Common, Common/*          lists, tests, results and integers that the parts share
--   Data/Words                src/util/data.hpp, src/util/data.cpp: integers as bytes
--   Data/Buffer, Data/Buffer/*  src/data/bytebuffer.cpp: the buffer, its reads and writes
--   Data/Serial, Data/Serial/*  src/data/bytebuffer.hpp: `readValue` and `writeValue` by type
--   Data/Bits, Data/Bits/*    src/data/bitbuffer.hpp and the bit fields of src/data/bytebuffer.hpp
--   Data/Types/*              src/data/types: what the packets hold
--   Packets, Packets/*        src/data/packets: the packet classes, and the list of those that
--                             src/data/packets/all.cpp knows
--   Crypto/*                  src/crypto: nonce, tag and text in memory
--   Net/TcpSocket, Net/TcpSocket/*    src/net/tcp_socket.cpp: `receive`, `recvExact`, `sendAll`
--   Net/GameSocket, Net/GameSocket/*  src/net/game_socket.cpp: `encodePacket`, `decodePacket`,
--                             `recvPacket`, `sendPacket`; src/data/packets/all.cpp: `matchPacket`
--   Net/UdpSocket             src/net/udp_socket.cpp, src/util/net.cpp
--   Net/Manager, Net/Manager/*  src/net/manager.cpp: the connection's state and its handlers
--   Net/Dispatch, Net/Dispatch/*  src/net/manager.cpp: the receiving thread and its listeners
--   Managers/BlockList, Managers/BlockList/*  src/managers/block_list.cpp
--   Managers/CentralServers, Managers/CentralServers/*  src/managers/central_server.cpp
--   Managers/GameServers, Managers/GameServers/*  src/managers/game_server.cpp
--   Managers/Roles, Managers/Roles/*  src/managers/role.cpp, src/data/types/misc.cpp
--   Managers/Accounts         src/managers/account.cpp
--   Managers/Profiles         src/managers/profile_cache.cpp
--   Managers/ErrorQueues      src/managers/error_queues.cpp
--   Managers/Session          src/managers/room.cpp, src/managers/admin.cpp,
--                             src/managers/friend_list.cpp
--   Audio/Frame, Audio/Frame/*  src/audio/frame.cpp, src/audio/encoder.cpp
--   Audio/Stream, Audio/Stream/*  src/audio/stream.cpp, src/audio/sample_queue.cpp,
--                             src/audio/volume_estimator.cpp
--   Audio/Recording, Audio/Recording/*  src/audio/manager.cpp
--   Audio/Voices              src/audio/voice_playback_manager.cpp,
--                             src/audio/voice_record_manager.cpp
--   Game/PlayerStore          src/game/player_store.cpp
--   Game/PlayerStates         src/game/visual_state.hpp, src/game/interpolator.hpp
--   Game/Interpolator, Game/Interpolator/*  src/game/interpolator.cpp
--   Util/CappedQueue          src/util/collections.hpp: `CappedQueue`
--   Util/SmallVector, Util/SmallVector/*  src/util/collections.hpp: `SmallVector`
--   Util/Adler32              src/util/adler32.hpp
--   Util/Format/*             src/util/format.cpp: colours, splitting, trimming, URL encoding
--   Examples, Examples/*      concrete runs
--
-- How it corresponds. A definition carries the name of the function it models, with words joined by
-- underscores. A method that reads is a function from a buffer to a value, an error or an exception,
-- each beside the buffer as it is left. The templates that choose a reader by type are values of
-- `Serial A`: the reader, the writer, the bytes on the wire, the values that these can hold, and
-- the laws of these four; a struct's `Serial` is made of its members'. A `size_t` has 64 bits and
-- its sums wrap; a length on the wire has 16 bits and `writeLength` cuts it. Floats are bit
-- patterns, and what is computed of them is a parameter.
--
-- Parameters. libsodium is `Sodium`: what it seals has sixteen bytes more, and opens again under
-- the same key and nonce; a nonce is an argument. The system's `recv` is `Stream`: while there are
-- bytes to come it hands on some of the next ones, between one and as many as were asked for. Its
-- `send` is `Sink`: it takes some of the bytes, at least one, from the front. Base64, hashes and the
-- printing of integers are `Codecs`. Opus is a decoder that keeps a state; what the streams
-- and the interpolator compute of floats is a parameter, and so are the clock and the random number
-- of a ping.
--
-- Fuel. The `do ... while` loops of TcpSocket run on fuel. `recvExact` for n bytes is given n + 1,
-- and `sendAll` as many rounds as bytes; every round moves at least one byte.
-- `setCapacity` pops once for each frame at most, and `split` looks for the separator once for each
-- byte of the string and once more.
--
-- Steps. A handler of the network manager, or a round of its main thread, is one step; what it asks
-- of other objects is appended to a list. The tasks that a round takes from the task queue, and what
-- sending a packet leaves of the socket, are given to it. Any handlers may follow each other in any
-- order.
--
-- Maps keyed by texts or numbers are association lists with one entry for each key.
--
-- Not modelled: the pool of listeners of the network manager; `SmallVector::at` and the const
-- iterators, which do not compile when they are used; settings and web requests, address resolution, the choice of audio devices, Opus and FMOD, the user
-- interface, the hooks of the game, platform code (calls of other systems); the server, which is
-- another program.
pub mod Common
pub mod Data
pub mod Packets
pub mod Crypto
pub mod Net
pub mod Managers
pub mod Examples
pub mod Util
pub mod Game
pub mod Audio
