-- ===== src/Lib.antt =====
-- A distributed hash table on a Chord ring, in C (praxis2): peers that answer SET, GET and DELETE
-- requests of clients over TCP, and find the peer that is responsible for a key by lookups round
-- the ring. Beside it, an HTTP server that answers one connection (praxis1).
--
-- The parts, each a file here with the theorems on it in a folder of its name:
--   Packet      praxis2/src/packet.c: the struct, its copy, and the wire format. A pointer is `none`
--               for NULL, and a block of memory is the list of its bytes.
--   RingBuffer  praxis2/src/util.c, rb_*: the buffer in which a client's bytes are collected.
--   Transfer    praxis2/src/util.c: pseudo_hash, sendall and recvall.
--   Uthash      what the vendored praxis2/include/uthash.h promises, as an interface; Uthash/Listed
--               is an implementation of it for tests.
--   HashTable   praxis2/src/hash_table.c: the store of a peer, over Uthash.
--   Requests    praxis2/src/requests.c: the requests that wait for the answer to a lookup, over
--               Uthash.
--   Neighbour   praxis2/src/neighbour.c: the peers of the ring, and who is responsible for a hash.
--   Network     the system calls, as an interface, with what POSIX promises of send and recv, and
--               Linux's limit of what one call of send takes.
--   Server      praxis2/src/server.c: the clients, the state machine that cuts a client's bytes into
--               header and body, the loop round poll (Server/Loop), and server_setup (Server/Setup).
--               Server/Loop/Delivery follows a packet from its first byte to its delivery, and
--               Server/Loop/Sweeping the removal of the marked clients.
--   Peer        praxis2/src/peer.c: what a peer does with a packet (Peer/Handlers). Its handle_packet
--               is the callback that the server is run with. Its main function is Peer/Main.
--               Peer/Handlers/Telling is what a control packet to another peer comes to,
--               Peer/Handlers/Lookups and Peer/Handlers/Queueing say when a lookup is answered, passed on
--               and sent, Peer/Handlers/Rings whose the answers are in the whole ring (Neighbour/Rings),
--               Peer/Handlers/Serving and Peer/Handlers/Exchange follow a request from its bytes
--               to the bytes of its answer, and Peer/Handlers/Proxying one that the successor answers;
--               Peer/Handlers/Replies passes on those that have waited for a lookup.
--   Client      praxis2/src/client.c: the command-line client; the calls on stdin and stdout are
--               parameters, with what the C library promises of them as the records Input and
--               Output. Client/Runs follows a run of it, and Client/Fetching and Client/Storing
--               put it together with a peer.
--   Webserver   praxis1/webserver.c: its buffers, and its loops and main (Webserver/Loops), on outcomes
--               of their own (Run), since the program may exit at any point. `usable`, a parameter,
--               is the room that malloc makes for a number of bytes.
--   Scratch     praxis2/include/scratch1.c: what prints entries and packets, and the tests of
--               peer_is_responsible.
--   Prelude     what all of them share: Exec, in which code that touches memory runs, lists, words
--               and bits. Tests holds an example of each theorem with hypotheses.
--
-- The functions have the names of the C functions. A helper stands for a part of one: a loop, a branch
-- or the body after a call. State is passed on: the server with its globals and the outside world
-- is the record System, and what a call changes is in its result. Undefined behaviour (an access
-- outside of a block or through NULL) is `fault`; `unfinished` is no result of the code. Integers
-- keep their width by the u8, u16, u32 and u64 of Prelude/Words where C converts or wraps.
--
-- Fuel: send_loop gets as many rounds as there are bytes, and each round sends one at least; out_loop
-- of the client likewise. recv_loop and stdin_loop have a fuel of the caller's, which is enough when
-- it is greater than the number of bytes to come. The loop of the server is given
-- an address for each round and says when it still runs. A peer's main has a round of the
-- server for each address. The scan of the web server's primary buffer gets as many rounds as there
-- are bytes in use, which is enough; `rounds` bounds its other loops, which the client drives, and
-- `endless` says that they still run. What is endless for any number of rounds does not end.
--
-- Not modelled: free (every fault here is one that would be there without it), malloc's failure, the
-- printed messages but for those of the web server and of Scratch that read a block with `%s`,
-- get_ip_str, which serves only messages, create_entry2, which nothing calls, the run of a peer
-- with a neighbour that peer_init has refused, and client_test and peer_test, which only print.
pub mod Prelude
pub mod Packet
pub mod RingBuffer
pub mod Uthash
pub mod HashTable
pub mod Requests
pub mod Neighbour
pub mod Network
pub mod Transfer
pub mod Server
pub mod Peer
pub mod Tests
pub mod Client
pub mod Webserver
pub mod Scratch
