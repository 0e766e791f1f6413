-- ===== src/Lib.antt =====
-- NATMesh, a control server, relay and client for meshes of devices behind NATs (C++): a model of its
-- own logic and the theorems about it. Paths are from the repository's root.
--
-- The parts and how they interact. The control server keeps users, devices and networks in
-- tables (src/repository) that its services (src/service) work on, and hands out virtual addresses
-- (src/ipam); a device talks to it over a WebSocket session (src/ws), is
-- found in its registries (src/nat), and shows a token (src/auth). A STUN server tells clients their
-- public addresses (src/stun). Clients punch UDP holes to each other (src/client) and encrypt
-- what they send through them (src/crypto), and where that fails they talk through the relay server (src/relay), which forwards packets between registered
-- nodes of one network.
--
-- The files.
--   Prelude: texts as lists of bytes, `std::unordered_map` as a list with one entry to a key, signed
--     integers, Boolean tests, lists measured by native numbers.
--   Inet: `inet_pton` and `inet_ntop` as a record with laws; Inet/Dotted is a concrete instance.
--   Json: the calls of nlohmann::json as a record with laws; Json/Plain is a concrete instance.
--   Clock: time points and `duration_cast<seconds>`.
--   Address: the static helpers of src/ipam/IpAllocator.cpp (networkAddr is `network_addr`, and so on
--     for the others). Bits and Subnet prove what the masks do, Cidr that printing is read back.
--   Ipam: the pools of IpAllocator and every operation on them. Scan and Allocate treat one call of
--     `allocate`, Shape the pools that `addPool` makes, History and Reuse sequences of calls, Free the
--     freeing of addresses and the subnet text.
--   Relay/Registry: src/relay/RelayRegistry.cpp, with its laws in Relay/Registry/Laws.
--   Relay/Server: src/relay/RelayServer.cpp, a function for each handler. Packet treats the forwarding,
--     Receive a datagram of any content, History the events over time.
--   Relay/Client: the relay messages of src/client/UdpPuncher.cpp, and their way through the server.
--   Nat/Nodes: src/nat/node_registry.cpp. Life follows a node through every sequence of calls, Timeouts
--     treats the search for silent nodes.
--   Nat/Sessions, Nat/Monitor, Nat/Dispatcher: src/nat/session_manager.cpp, heartbeat_monitor.cpp and
--     message_dispatcher.cpp.
--   Auth/Base64, Auth/Sha, Auth/Jwt: the three layers of src/auth/jwt.cpp. Base64/Digits and
--     Base64/Padding prove the round trip, Sha/Stream treats the streaming, Sha/Standard and Sha/Hmac
--     compare with FIPS 180-4 and RFC 2104, Jwt/Laws treats tokens.
--   Ws/Session: src/ws/ws_session.cpp. Steps has the events, Queue, Order and Writes treat the
--     write queue, Cases, Trust and Access the authentication.
--     src/ws/wss_session.cpp has the same logic over TLS.
--   Ws/Device: the fields of src/model/device.h and its JSON views.
--   Stun: src/stun/StunServer.cpp.
--   Noise: src/crypto/NoiseProtocol.cpp. Hkdf, Base64 and Transport treat its layers, Rfc
--     compares with RFC 5869, Session has the fields
--     and the handshake, Complete, Steps and Agreement prove what the handshake does, Plain is a stand-in for
--     OpenSSL in the tests.
--   Punch: src/client/UdpPuncher.cpp. Send has the messages it sends, Receive the handlers of datagrams,
--     Events a sequence of all of them. Told, Timers, Handshake, Datagrams and Run follow the punch
--     callback through it, Packets a packet from one puncher to the other.
--   Data: src/repository. The tables of database.cpp, and Users, Devices and Networks for the statements of
--     user_repo.cpp, device_repo.cpp and network_repo.cpp. Rows and Sound state what the keys promise,
--     Keys that no id is given twice, Statements, Links and Histories follow it through the statements.
--   Service/Password, Service/Users: src/service/user_service.cpp, with the Laws of each.
--   Service/Devices: src/service/device_service.cpp (create_device is `add_user_device`,
--     update_connection_info, update_heartbeat and update_virtual_ip are `set_connection_info`,
--     `note_heartbeat` and `set_virtual_ip`, as the repository has the other names).
--   Service/Networks: src/service/network_service.cpp (create_network is `add_network`). Joins and Leaves
--     treat the two calls that touch the address pools.
--   Service/Peers: src/service/peer_manager.cpp, over the sessions of Ws/Session. Json/Values has the
--     messages that are built as trees.
--   Uuid: src/util/uuid.cpp.
--   Config: src/config/config.cpp, with Loading for what a file gives.
--   Http: assign_virtual_ip and ensure_node_auth_persisted of src/http/http_server.cpp, which call the
--     services, the registry of nodes and the pools.
--   The modules named Tests hold runs on concrete data and the theorems at concrete inputs.
--
-- State and operations. A class is a record or a map, a method a function from the state to the new
-- state and the result. Time and the endpoint of a sender are arguments. A mutex makes a method
-- atomic, so a history is a sequence of calls. An exception is `none` or the outcome `throws`.
--
-- Messages. A text is a list of bytes, and `dump` throws for a string that is not UTF-8: `dump_object`
-- is `none` then, and what sends a message of a caller's texts does not send it. What was parsed is
-- UTF-8, and so are the fixed texts, so the servers' answers are dumped without this test.
--
-- Bounds and fuel. A `uint32_t` is a number with its wrap-around written out; a shift by 32 places is
-- the outcome `undefined`. The search of `allocate` has fuel for 2 ^ 32 + 1 rounds: after 2 ^ 32 rounds
-- a 32-bit counter has been everywhere, so the outcome `hangs` is a loop that never ends. The padding of
-- Base64 has fuel for 3 rounds, which make any length a multiple of four.
-- HKDF has fuel for one round a byte, and a round writes a byte at least. The buffers of a puncher and of the
-- STUN server have 4096 bytes, to which a datagram is cut; that of the relay server has room for any.
--
-- Tables. An SQL statement is a function on the tables, with the keys, foreign keys and defaults of the
-- schema; SQLite is taken to do what the SQL says. An id is a number that is not negative.
--
-- Not modelled: sockets, timers, files, TLS, OpenSSL, SQLite itself, HTML pages and log lines; the other
-- clients of src/client, src/core, and the rest of the HTTP server.
pub mod Prelude
pub mod Inet
pub mod Address
pub mod Ipam
pub mod Clock
pub mod Json
pub mod Relay
pub mod Nat
pub mod Noise
pub mod Punch
pub mod Data
pub mod Service
pub mod Uuid
pub mod Config
pub mod Http
pub mod Auth
pub mod Ws
pub mod Stun
