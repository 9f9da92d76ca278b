-- ===== src/Peer/Handlers/Serving.antt =====
-- What handle_own_request of praxis2/src/peer.c sends to a client, and what it does to the store.
use rn.Prelude.{
  ℕ, ◌<◌, ◌^◌, ◌≡◌, refl, ap, Bool-cases, inl, inr, true, false, Option, none, some, arith, ok,
  Allocator, bytes, length, length-bytes, bit_or, length-as_string,
}
use mathlib.Core.Path.{subst}
use rn.Packet.{Packet, packet_new, has, pkt_flag_ack, pkt_flag_get, pkt_flag_set, pkt_flag_del}
use rn.Packet.Message.{IsPacket, message, encode}
use rn.Packet.Serialize.{packet_serialize_lem}
use rn.Uthash.{Uthash}
use rn.HashTable.{Htable, entry_key}
use rn.HashTable.Store.{new_entry, find-htable_set, find-htable_delete, htable_get_lem}
use rn.Requests.{rtable_key}
use rn.Network.{Network, Stream}
use rn.Transfer.{Sent, sendall}
use rn.Transfer.Sending.{Delivered, sendall_lem}
use rn.Server.{Client, cb_remove_client, find_client}
use rn.Peer.{get_reply, is_get, is_set}
use rn.Peer.Handlers.{Node, perform, handle_own_request}
use rn.Peer.Handlers.Entries.{
  GoodEntry, WellStored, stays_well, found_ack, perform-found, perform-set,
}
use rn.Peer.Handlers.Answers.{is_del-true}

-- An acknowledgement with none of a key and a value.
plain_ack : (flags : ℕ) → flags < 2 ^ 8 → IsPacket (record packet_new { flags = flags })
plain_ack flags h = record {
  flags_fit = h;
  key_len_fits = omega arith;
  value_len_fits = omega arith;
  hash_id_fits = omega arith;
  node_id_fits = omega arith;
  node_ip_fits = omega arith;
  node_port_fits = omega arith;
  key_readable = refl;
  value_readable = refl;
}

module _ (heap : Allocator) (net : Network) (htu : Uthash entry_key) (rtu : Uthash rtable_key)
    (fuel : ℕ) where
  open htu use {Table, hash_find}

  -- A packet that acknowledges a request, and a store to go on with.
  pub record Acknowledges (ht : Table) (p : Packet) : Type 0 where
    pub ack : Packet
    pub after : Table
    pub run : perform heap net htu rtu fuel ht p ≡ ok (ack, after)
    pub flagged : has ack.flags pkt_flag_ack ≡ true
    pub is_packet : IsPacket ack
    pub well : WellStored htu after

  -- The reply to a GET.
  get-Acknowledges :
      (ht : Table) (p : Packet) (found : Option Htable)
      → is_get p.flags ≡ true
      → IsPacket p
      → WellStored htu ht
      → hash_find ht (bytes p.key p.key_len) ≡ found
      → Acknowledges ht p
  unfolding perform get_reply has
  get-Acknowledges ht p none get v well missing = record {
    ack = record packet_new { flags = bit_or pkt_flag_get pkt_flag_ack };
    after = ht;
    run = rw (get, htable_get_lem htu ht p.key p.key_len v.key_readable, missing) refl;
    flagged = refl;
    is_packet = plain_ack _ (omega arith);
    well = well;
  }
  get-Acknowledges ht p (some e) get v well found =
      let good = well (bytes p.key p.key_len) e found in
      record {
        ack = found_ack heap net htu rtu fuel e;
        after = ht;
        run = perform-found heap net htu rtu fuel ht p e get v good found;
        flagged = refl;
        is_packet = record {
          flags_fit = omega arith;
          key_len_fits = omega (arith, good.key_small);
          value_len_fits = omega (arith, good.value_small);
          hash_id_fits = omega arith;
          node_id_fits = omega arith;
          node_ip_fits = omega arith;
          node_port_fits = omega arith;
          key_readable = omega (arith, good.key_small, good.key_whole, length-as_string e.key);
          value_readable =
              omega (arith, good.value_small, good.value_whole, length-as_string e.value);
        };
        well = well;
      }

  set-Acknowledges :
      (ht : Table) (p : Packet)
      → is_get p.flags ≡ false
      → is_set p.flags ≡ true
      → IsPacket p
      → WellStored htu ht
      → Acknowledges ht p
  unfolding perform has
  set-Acknowledges ht p not_get set v well =
      let (after, run, found) =
        find-htable_set htu ht p.key p.key_len p.value p.value_len v.key_readable
          v.value_readable in
      record {
        ack = record packet_new { flags = bit_or pkt_flag_set pkt_flag_ack };
        after = after;
        run = perform-set heap net htu rtu fuel ht after p not_get set run;
        flagged = refl;
        is_packet = plain_ack _ (omega arith);
        well = stays_well htu ht after (bytes p.key p.key_len) _ found (λ e same. good e same) well;
      }
    where
      good :
          (e : Htable)
          → some
              (new_entry (bytes p.key p.key_len) p.key_len (bytes p.value p.value_len) p.value_len)
            ≡ some e
          → GoodEntry e
      good e same =
          let heads : new_entry (bytes p.key p.key_len) p.key_len (bytes p.value p.value_len)
                p.value_len
              ≡ e =
            cc in
          subst GoodEntry heads (record {
            key_whole = length-bytes p.key p.key_len v.key_readable;
            key_small = v.key_len_fits;
            value_whole = length-bytes p.value p.value_len v.value_readable;
            value_small = v.value_len_fits;
          })

  delete-Acknowledges :
      (ht : Table) (p : Packet)
      → is_get p.flags ≡ false
      → is_set p.flags ≡ false
      → IsPacket p
      → WellStored htu ht
      → Acknowledges ht p
  unfolding perform has
  delete-Acknowledges ht p not_get not_set v well =
      let (after, run, found) = find-htable_delete htu ht p.key p.key_len v.key_readable in
      record {
        ack = record packet_new { flags = bit_or pkt_flag_del pkt_flag_ack };
        after = after;
        run = rw (not_get, not_set, is_del-true p.flags, run) refl;
        flagged = refl;
        is_packet = plain_ack _ (omega arith);
        well = stays_well htu ht after (bytes p.key p.key_len) none found (λ e same. cc) well;
      }

  pub perform-Acknowledges :
      (ht : Table) (p : Packet) → IsPacket p → WellStored htu ht → Acknowledges ht p
  perform-Acknowledges ht p v well = elim (Bool-cases (is_get p.flags)) [
    | inl get ↦ get-Acknowledges ht p (hash_find ht (bytes p.key p.key_len)) get v well refl
    | inr not_get ↦ elim (Bool-cases (is_set p.flags)) [
      | inl set ↦ set-Acknowledges ht p not_get set v well
      | inr not_set ↦ delete-Acknowledges ht p not_get not_set v well
    ]
  ]

  -- What sendall makes of the wire format of a packet.
  abbrev pub sending : Option ℕ → Packet → net.World → Sent × net.World
  sending socket p w = sendall net socket (encode (message p)) (length (encode (message p))) w

  -- The request is answered over the client's socket.
  pub request_answered :
      (s : Node heap net htu rtu fuel) (a : ℕ) (c : Client) (p : Packet) (socket : Option ℕ)
      → c.socket ≡ socket
      → find_client s.server.clients a ≡ some c
      → IsPacket p
      → WellStored htu s.globals.ht
      → (r : Acknowledges s.globals.ht p) × (handle_own_request heap net htu rtu fuel s a p
          ≡ ok (
            cb_remove_client,
            record s {
              globals = record (s.globals) { ht = r.after };
              world = (sending socket r.ack s.world).1;
            },
          ))
  unfolding handle_own_request
  request_answered s a c p socket e there v well =
      let r = perform-Acknowledges s.globals.ht p v well in
      (
        r,
        rw (r.run, packet_serialize_lem heap r.ack r.is_packet, there)
            (ap
              (λ k. ok (
                cb_remove_client,
                record s {
                  globals = record (s.globals) { ht = r.after };
                  world = (sending k r.ack s.world).1;
                },
              ))
              e),
      )

  -- Every request for a key of this peer is answered, whatever its flags and whether or not the key is
  -- stored: handle_own_request does not fault, has the client removed, and sends a well-formed
  -- packet with the flag ACK to it, or send declines some of it. The store stays one that the
  -- next request is answered from.
  pub handle_own_request_lem :
      (s : Node heap net htu rtu fuel) (a : ℕ) (c : Client) (p : Packet)
      (stream : Stream net c.socket)
      → find_client s.server.clients a ≡ some c
      → IsPacket p
      → WellStored htu s.globals.ht
      → (r : Acknowledges s.globals.ht p) × (handle_own_request heap net htu rtu fuel s a p
          ≡ ok (
            cb_remove_client,
            record s {
              globals = record (s.globals) { ht = r.after };
              world = (sending c.socket r.ack s.world).1;
            },
          ))
        × Delivered net c.socket stream
            (encode (message r.ack))
            s.world
            (sending c.socket r.ack s.world)
  handle_own_request_lem s a c p stream there v well =
      let (r, answered) = request_answered s a c p c.socket refl there v well in
      (r, answered, sendall_lem net c.socket stream (encode (message r.ack)) s.world)
