-- ===== src/Lib.antt =====
-- The socket server of src/com, the store src/dist/anna (its lattices, its hash ring, and the handlers of
-- its servers, routers and monitor), the reader of YCSB workload files of src/utils/tracer.h, the load
-- drivers of src/dist/memcached and the packet distributor of src/dpdk, as functions, with the theorems
-- about them.
--
-- The parts and their files. Paths are from the repository's root.
--
-- Prelude passes on the library's names, with Boolean tests on numbers (Prelude/Tests) and lists measured
-- in the native numbers (Prelude/Lists). Strings and buffers are lists of bytes.
--
-- Com models src/com/socket_server.cpp with src/com/server_define.h and src/com/settings.h. A connection
-- is the record Connection, with the fields of CONNECTION; `working_buf` is its distance from `read_buf`.
--   Com/Header    the request header, ntohs and its kin, and the header's image in memory
--   Com/Conn      the states, the connection, the constants, and a socket: the answers that `read` and
--                 `write` will give, in order, and what has been written
--   Com/Parse     dispatch_bin_command, try_read_head_binary, try_read_key_value
--   Com/Reply     con_ret_buf, send_batch
--   Com/Network   reset_cmd_handler, try_read_network, conn_new
--   Com/Table     the hash table, a parameter with the documented behaviour of insert_or_assign and find
--   Com/Process   process_func, one function per case of its two switches, and event_handler
--   Com/Accept    conn_dispatch and thread_libevent_process: queues and pipes, and the order of actions
-- The parser and the reply builder change the connection, the loop of process_func passes it from one to
-- the other by its two state fields, and the hash table is what connections share. The children of each
-- file hold its theorems, and Com/Examples applies them at concrete connections.
--
-- Anna models src/dist/anna/common/include/lattices, parts of src/dist/anna/include, and the handlers of
-- src/dist/anna/src/kvs, src/dist/anna/src/monitor and src/dist/anna/src/route. A handler is a function
-- from a message and a state to the state afterwards and what it sends.
--   Anna/Lattice/Interface   the abstract class Lattice, which a map or a store takes as an argument
--   Anna/Lattice/Scalars     BoolLattice, MaxLattice, LWWPairLattice, PriorityLattice
--   Anna/Lattice/SetLattice  SetLattice and its operations
--   Anna/Lattice/MapLattice  MapLattice and its operations
--   Anna/Lattice/Causal      the two causal lattices over vector clocks
--   Anna/Kvs                 KVStore, the memory serializers, process_get and process_put
--   Anna/HashRing            ConsistentHashMap of src/dist/anna/include/consistent_hash_map.hpp
--   Anna/HashRing/Servers    HashRing of src/dist/anna/include/hash_ring.hpp; its insert is `join`
--   Anna/HashRing/Walk       responsible_global of src/dist/anna/src/hash_ring/hash_ring.cpp
--   Anna/HashRing/Responsible  responsible_local and the loops of get_responsible_threads, and
--                            is_primary_replica of src/dist/anna/src/kvs/utils.cpp
--   Anna/Metadata            metadata keys, src/dist/anna/include/metadata.hpp
--   Anna/Server              src/dist/anna/src/kvs, by handler:
--     Maps           the maps of sets that handlers change
--     Requests       user_request_handler
--     Replication    replication_response_handler; Replication/Change: replication_change_handler,
--                    with theorems in Handed and Changed
--     Gossip         send_gossip of utils.cpp
--     TakeGossip     gossip_handler
--     Redistribute   the passes of run in server.cpp that send away the keys of a node that joined
--     Caches         cache_ip_response_handler, management_node_response_handler
--   Anna/Cluster             joining and leaving, across servers, routers and the monitor:
--     Fields, Rings  messages of fields, the rings of the tiers
--     Departing      self_depart_handler, node_depart_handler, the monitor's depart_done_handler
--     Joining        node_join_handler
--     Membership     the membership_handler of the monitor and of the routers, seed_handler
--   Anna/Routing             address_handler, replication_response_handler of src/dist/anna/src/route;
--                            Routing/Changes: replication_change_handler
--   Anna/Monitor             change_replication_factor of src/dist/anna/src/monitor; Prepare and Sending
--                            are its parts, with receive of src/dist/anna/common/include/requests.hpp
-- A server's handlers share the record ServerState, which ReplicaState extends by what is known of
-- replication. A user's request for a key with unknown factors waits in it until replication_response_handler
-- replays it; what a server stores is gossiped to the other threads of a key, and a change of the ring or of
-- factors hands keys over. The theorems that join parts stand with the later of them.
-- An unordered container is a list without repetitions; the theorems speak of membership and lookup, which
-- do not depend on its order.
--
-- Utils/Tracer models supersplit and the two loaders of src/utils/tracer.h over the lines of a file.
--
-- Memcached models the drivers of src/dist/memcached, which share a list of requests out to threads; they
-- take the requests that Utils/Tracer loads, and libmemcached as a record of its calls.
--   Memcached/Batches   mc_mt.cpp: con_package, con_database and send_thread
--   Memcached/Workers   mc_mt_ycsb.cpp: measureWorker
--   Memcached/Strides   mc_mtr.cpp: setWorker and getWorker
--   Memcached/Shares    a list cut at ascending bounds, for the first two
--
-- Dpdk models src/dpdk. The server fills the table of ports that the clients read, and deals packets out to
-- the clients' rings; a client sends each packet out of the port paired with the one it came in on.
--   Dpdk/Ports    common.h: the table of ports; writes out of an array's bounds
--   Dpdk/Args     args.c: the server's command line
--   Dpdk/Links    check_all_ports_link_status of init.c
--   Dpdk/Server   dpdk_server.c
--   Dpdk/Client   dpdk_client.cpp
--
-- Fuel. process_loop counts the rounds of process_func: a measure of the unparsed bytes and the state
-- is the bound on them. split_loop consumes a character in each round and has the length of the line and
-- one. con_loop has a round for each request and for each new batch. The loop over a port mask has 65
-- rounds for 64 bits, the one over pairs of ports 129 for 255 ports, the wait for links 92 for its 91
-- counts, and a thread of mc_mtr.cpp one more than there are numbers. responsible_global takes its fuel as
-- an argument, since its loop has no bound of its own. The handlers of anna go through lists, and have none.
--
-- Outcomes. A fault (an access out of bounds), an exit of the process and fuel that has run out are values
-- of their own, so that a theorem that the code returns excludes them.
--
-- Not modelled: libevent, the start of threads and main of the server; its client; libcuckoo and MICA2,
-- which are copies of other projects; protocol buffers, which are two functions `serialize` and
-- `deserialize`; in anna the disk serializers, a lattice type without a serializer anywhere but in
-- user_request_handler, the rest of run in server.cpp, which polls sockets and reports statistics, what a
-- handler passes on to its node's other threads unchanged, the monitor's policies, which compare floating-
-- point statistics, and its collection of them, routing.cpp, its clients and benchmarks; MapLattice's
-- intersect, which nothing instantiates; sockets, main and the inserts of the memcached drivers; DPDK's own
-- calls, the set-up that is a sequence of them, and the display of counters; random generators and clocks.

pub mod Prelude
pub mod Com
pub mod Anna
pub mod Utils
pub mod Memcached
pub mod Dpdk
