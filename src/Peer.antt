-- ===== src/Peer.antt =====
-- praxis2/src/peer.c: what a peer does with a packet. Its global variables are a record, and the
-- server with its clients is the system of `Server`. The printed messages are left out.
pub mod Handlers
pub mod Main
use rn.Prelude.{
  ℕ, zero, suc, Bool, true, false, not, Option, none, some, List, [], ◌∷◌, Exec, ok, fault,
  unfinished, ◌>>=◌, deref, Allocator, replicate, bit_or, u8, u16, u32, strncpy, ◌==◌,
  if◌then◌else◌,
}
use rn.Packet.{
  Packet, packet_new, packet_serialize, has, pkt_flag_ctrl, pkt_flag_rply, pkt_flag_lkup,
  pkt_flag_ack, pkt_flag_get, pkt_flag_set, pkt_flag_del,
}
use rn.Uthash.{Uthash}
use rn.HashTable.{Htable, entry_key, htable_set, htable_get, htable_delete}
use rn.Requests.{Request, rtable_key, add_request, get_requests, clear_requests}
use rn.Network.{Network}
use rn.Neighbour.{
  Peer, peer_connect, peer_disconnect, peer_get_ip, peer_from_packet, peer_is_responsible,
}
use rn.Transfer.{Sent, all_sent, failed, stuck, sendall, recvall, pseudo_hash}
use rn.Server.{System, CbStatus, cb_remove_client, cb_ok, Client, find_client, server_close_socket}

-- The reply to a GET: the key and the value of the entry that was found, copied as strings.
pub get_reply : Packet → Option Htable → Exec Packet
get_reply ack none = ok ack
get_reply ack (some entry) = do
  key ← strncpy entry.key entry.key_len
  value ← strncpy entry.value entry.value_len
  ok (record ack {
    key = some key;
    key_len = u16 entry.key_len;
    value = some value;
    value_len = u32 entry.value_len;
  })

-- The tests of handle_own_request. In the last, `==` binds tighter than `|`.
unfoldable pub is_get : ℕ → Bool
is_get flags = flags == u8 (bit_or flags pkt_flag_get)

unfoldable pub is_set : ℕ → Bool
is_set flags = flags == u8 (bit_or flags pkt_flag_set)

pub is_del : ℕ → Bool
is_del flags = not (bit_or (if flags == flags then 1 else 0) pkt_flag_del == 0)

module _ (heap : Allocator) (net : Network) (htu : Uthash entry_key) (rtu : Uthash rtable_key) where
  open net use {World}

  -- The global variables.
  pub record Globals : Type 0 where
    pub ht : htu.Table
    pub rt : rtu.Table
    pub self : Peer
    pub pred : Peer
    pub succ : Peer
