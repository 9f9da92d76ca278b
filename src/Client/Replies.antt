-- ===== src/Client/Replies.antt =====
-- What praxis2/src/client.c makes of the reply to its request, from recvall to the exit code.
use rn.Prelude.{
  ℕ, ◌^◌, ◌<◌, ◌≡◌, ◌≢◌, refl, ap, ◌∙◌, Bool, true, false, Option, none, some, List, ◌++◌, arith,
  length, length-append, Bool-cases, ◌⊎◌, inl, inr, Exec, ok, unfinished, Allocator, read_ptr,
  read_ptr_lem, if◌then◌else◌, not,
}
use mathlib.Core.Path.{subst}
use rn.Network.{Network, Stream}
use rn.Packet.{Packet, packet_serialize, has, pkt_flag_ack}
use rn.Packet.Message.{
  Message, request, encode, packet_of, pointer_to, IsMessage, bytes-pointer_to, Readable-pointer_to,
}
use rn.Packet.RoundTrip.{decode-request}
use rn.Transfer.{Sent, all_sent, failed, stuck, sendall, recvall}
use rn.Transfer.Sending.{Delivered, sendall_lem}
use rn.Transfer.Keeping.{sendall-kept, recvall-kept}
use rn.Transfer.Receiving.{Received, recvall_lem}
use rn.Client.Printing.{Output, Refused, Printed, out_loop-Printed}
use rn.Client.Requests.{meant, Sends, request_packet_lem}
use rn.Client.{
  Command, request_packet, is_get_value, out_loop, write_value, handle_response, await, exchange,
}

module _ (heap : Allocator) (net : Network)
    (getaddrinfo : List ℕ → List ℕ → net.World → Option (List net.Address) × net.World)
    (fread : ℕ → net.World → List ℕ × net.World) (fwrite : List ℕ → net.World → ℕ × net.World)
    (output : Output net fwrite) where
  open net use {World, send, recv, close}
  open output use {printed, printed-fwrite, printed-send, printed-recv, printed-close}

  module _ (c : Command) (f : ℕ) (k v : List ℕ) where
    -- The exit code (`true` for 0) and what is printed from the state on in which the reply has been
    -- received: nothing of a reply without the flag ACK, or to SET and DELETE; of an ACK to GET all of
    -- the value, unless fwrite refuses when the value is printed from this state on.
    abbrev pub Reported : World → Bool × World → Type 0
    Reported w (code, after) =
        if not (has f pkt_flag_ack)
        then (code ≡ false) × (printed after ≡ printed w)
        else if is_get_value heap net getaddrinfo fread fwrite c
        then ((code ≡ true) × (printed after ≡ printed w ++ v))
          ⊎ ((code ≡ false) × Refused heap net getaddrinfo fread fwrite output after v w)
        else (code ≡ true) × (printed after ≡ printed w)

    handle_response_lem :
        (w : World)
        → IsMessage (request f k v)
        → (r : Bool × World) × (handle_response heap net getaddrinfo fread fwrite c
              (some (packet_of (request f k v)))
              w
            ≡ ok r)
          × Reported w r
    unfolding handle_response write_value
    handle_response_lem w h = elim (Bool-cases (not (has f pkt_flag_ack))) [
      | inl unflagged ↦ ((false, w), rw unflagged refl, rw unflagged (refl, refl))
      | inr acknowledged ↦ elim (Bool-cases (is_get_value heap net getaddrinfo fread fwrite c)) [
        | inr other ↦
            ((true, w), rw (acknowledged, other) refl, rw (acknowledged, other) (refl, refl))
        | inl get ↦
            let (r, run, told) =
              ended (out_loop heap net getaddrinfo fread fwrite (length v) v (length v) 0 w) (
                out_loop-Printed heap net getaddrinfo fread fwrite output (length v) v 0 w
                  (omega arith)) in
            (r, rw (acknowledged, get, value) run, rw (acknowledged, get) told)
      ]
    ]
      where
        value : read_ptr (pointer_to v) (length v) ≡ ok v
        value =
            read_ptr_lem (pointer_to v) (length v) (Readable-pointer_to v)
            ∙ ap ok (bytes-pointer_to v)

        ended :
            (o : Sent × World)
            → Printed heap net getaddrinfo fread fwrite output v w o
            → (r : Bool × World) × ((elim o.0 as (λ _. Exec (Bool × World)) [
              | all_sent ↦ ok (true, o.1)
              | failed ↦ ok (false, o.1)
              | stuck ↦ unfinished
            ])
                ≡ ok r)
              × (((r.0 ≡ true) × (printed r.1 ≡ printed w ++ v))
                  ⊎ ((r.0 ≡ false) × Refused heap net getaddrinfo fread fwrite output r.1 v w))
        ended (all_sent, after) p = ((true, after), refl, inl (refl, p))
        ended (failed, after) p = ((false, after), refl, inr (refl, p))
        ended (stuck, after) p = elim p [ ]

  -- The packet that is sent for the request of a command.
  sent_packet :
      (p : Option Packet) (q : Message)
      → Sends heap p (some q)
      → (sent : Packet) × (p ≡ some sent)
        × (packet_serialize heap sent ≡ ok (encode q, length (encode q)))
  sent_packet (some sent) q h = (sent, refl, h)
  sent_packet none q h = elim h [ ]

  -- The state in which the reply has been received: what recvall leaves behind the request `q` that
  -- was sent from the state `w`. Nothing has been printed by then.
  pub record Awaited (fuel : ℕ) (s : Option ℕ) (q : Message) (w : World) : Type 0 where
    pub answer : List ℕ
    pub answer_len : ℕ
    pub received : World
    pub gets :
        recvall net heap fuel s (sendall net s (encode q) (length (encode q)) w).1
        ≡ ok (some (answer, answer_len, received))
    pub quiet : printed received ≡ printed w

  -- The answer to the request `q` of a command comes in, to the end of the stream, behind the bytes
  -- of the request; recv makes no error, and the reply is a request packet with any flags, key and
  -- value. Then the client does not fault and does end: it sends all of the request, or send declines
  -- some; and it prints the value of an acknowledged GET, whole and once, and exits with 0,
  -- unless fwrite refuses to print. To SET and DELETE it exits with 0 just if the reply has the flag
  -- ACK, and prints nothing.
  pub exchange_lem :
      (c : Command) (key value back : List ℕ) (q : Message) (s : Option ℕ) (stream : Stream net s)
      (f : ℕ) (k v : List ℕ) (fuel : ℕ) (w : World)
      → meant c key value ≡ some q
      → length key < 2 ^ 16
      → length value < 2 ^ 32
      → ((n : ℕ) (u : World) → (recv s n u).0 ≢ none)
      → IsMessage (request f k v)
      → stream.incoming (sendall net s (encode q) (length (encode q)) w).1 ≡ encode (request f k v)
      → length (encode (request f k v)) < fuel
      → (r : Bool × World) × (exchange heap net getaddrinfo fread fwrite fuel c s
            (request_packet c key (value ++ back) (length value))
            w
          ≡ ok r)
        × ((a : Awaited fuel s q w) × Reported c f k v a.received r)
        × Delivered net s stream (encode q) w (sendall net s (encode q) (length (encode q)) w)
  unfolding exchange await
  exchange_lem c key value back q s stream f k v fuel w is_command hk hv no_error h to_come enough =
      let (p, made, serialized) =
        sent_packet (request_packet c key (value ++ back) (length value)) q (
          subst (Sends heap (request_packet c key (value ++ back) (length value))) is_command
            (request_packet_lem heap c key value back hk hv)) in
      let (behind, after, run) =
        subst (λ l. Received net heap s stream l (recvall net heap fuel s w1)) to_come
          (recvall_lem net heap s stream no_error fuel w1 (rw to_come enough) (rw to_come short)) in
      let (r, handled, told) = handle_response_lem c f k v after h in
      (
        r,
        rw (made, serialized, run, decode-request f k v behind h) handled,
        (
          record {
            answer = encode (request f k v) ++ behind;
            answer_len = length (encode (request f k v));
            received = after;
            gets = run;
            quiet =
                recvall-kept net printed printed-send printed-recv printed-close heap fuel s w1 _ _
                  after run
                ∙ sendall-kept net printed printed-send printed-recv printed-close heap s (encode q)
                    (length (encode q)) w;
          },
          told,
        ),
        sendall_lem net s stream (encode q) w,
      )
    where
      w1 : World
      w1 = (sendall net s (encode q) (length (encode q)) w).1

      short : length (encode (request f k v)) < 2 ^ 61
      short = omega (arith, length-append k v)
