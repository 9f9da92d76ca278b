-- ===== src/Peer/Handlers/Replies.antt =====
-- handle_packet_ctrl of praxis2/src/peer.c with the reply to a lookup: the requests that have waited
-- for it are passed on, one after another.
use rn.Prelude.{ℕ, ◌^◌, ◌<◌, ◌≡◌, ◌≢◌, true, false, none, List, [], ◌∷◌, length, Allocator}
use rn.Packet.{Packet, has, pkt_flag_ctrl}
use rn.Packet.Message.{IsPacket, message, encode}
use rn.Uthash.{Uthash}
use rn.HashTable.{entry_key}
use rn.Requests.{Request, rtable_key}
use rn.Network.{Network, Stream}
use rn.Neighbour.{Peer, peer_connect}
use rn.Transfer.Sending.{Delivered}
use rn.Server.{server_close_socket}
use rn.Peer.Handlers.{Node}
use rn.Peer.Handlers.Proxying.{Proxied, passed, proxy_request_lem}

module _ (heap : Allocator) (net : Network) (htu : Uthash entry_key) (rtu : Uthash rtable_key)
    (fuel : ℕ) where
  open net use {World}

  -- The peer `n` accepts a connection in the state `w`, and answers the request `r` with `reply`.
  pub record Answers (r : Request) (n : Peer) (w : World) : Type 0 where
    pub linked : Peer
    pub joined : World
    pub upstream : Stream net linked.socket
    pub downstream : Stream net r.socket
    pub reply : List ℕ
    pub is_packet : IsPacket r.packet
    pub plain : has r.packet.flags pkt_flag_ctrl ≡ false
    pub connects : peer_connect net n w ≡ (true, linked, joined)
    pub no_error : (k : ℕ) (u : World) → (net.recv linked.socket k u).0 ≢ none
    pub to_come :
        upstream.incoming
          (passed heap net htu rtu fuel linked.socket (encode (message r.packet)) joined).1
        ≡ reply
    pub enough : length reply < fuel
    pub small : length reply < 2 ^ 61

  pub passing :
      (r : Request) (n : Peer) (w : World) (e : Answers r n w)
      → Proxied heap net htu rtu fuel r.socket r.packet n e.linked e.upstream e.downstream e.reply w
          e.joined
  passing r n w e =
      proxy_request_lem heap net htu rtu fuel r.socket r.packet n e.linked e.upstream e.downstream
        e.reply w e.joined e.is_packet e.plain e.connects e.no_error e.to_come e.enough e.small

  -- The peer's struct, and the program, when `r` has been passed on.
  abbrev pub given_up : (r : Request) (n : Peer) (w : World) → Answers r n w → Peer
  given_up r n w e = record (e.linked) { socket = none }

  abbrev pub next_state :
      (r : Request) (n : Peer) (s : Node heap net htu rtu fuel)
      → Answers r n s.world
      → Node heap net htu rtu fuel
  next_state r n s e = record s {
    server = server_close_socket s.server r.socket;
    world =
        net.close e.linked.socket
          (passed heap net htu rtu fuel r.socket e.reply (passing r n s.world e).answered).1;
  }

  -- The peer answers one request after another, each in the state that the last has left.
  pub data AnswersAll
      : List Request → Peer → Node heap net htu rtu fuel → Node heap net htu rtu fuel → Type 0 where
    answered : {n : Peer} {s : Node heap net htu rtu fuel} → AnswersAll [] n s s
    answers :
        {r : Request} {rest : List Request} {n : Peer} {s s' : Node heap net htu rtu fuel}
        (e : Answers r n s.world)
        → AnswersAll rest (given_up r n s.world e) (next_state r n s e) s'
        → AnswersAll (r ∷ rest) n s s'

  -- Each client has got the bytes of its reply, in full, or send has declined some.
  abbrev pub AllReplied :
      {rs : List Request} {n : Peer} {s s' : Node heap net htu rtu fuel}
      → AnswersAll rs n s s'
      → Type 0
  AllReplied answered = Unit
  AllReplied (answers {r} {rest} {n} {s} e more) =
      Delivered net r.socket e.downstream e.reply (passing r n s.world e).answered
        (passed heap net htu rtu fuel r.socket e.reply (passing r n s.world e).answered)
      × AllReplied more
