-- ===== src/Client/Runs.antt =====
-- A run of praxis2/src/client.c from its connection on: main, for each of the commands.
use rn.Prelude.{
  ℕ, ◌^◌, ◌<◌, ◌≡◌, ◌≢◌, refl, ◌∙◌, Bool, Option, none, some, List, [], ◌∷◌, ◌++◌, length, arith,
  Exec, ok, Allocator,
}
use rn.Network.{Network, Stream}
use rn.Packet.Message.{Message, request, encode, IsMessage}
use rn.Transfer.{sendall}
use rn.Transfer.Sending.{Delivered}
use rn.Client.{
  Command, set_value, get_value, delete_value, unknown, command, request_data, connect_socket,
  connected, main,
}
use rn.Client.Requests.{meant}
use rn.Client.Printing.{Output}
use rn.Client.Replies.{Awaited, Reported, exchange_lem}
use rn.Client.Reading.{Input, read_stdin_lem}

module _ (heap : Allocator) (net : Network)
    (getaddrinfo : List ℕ → List ℕ → net.World → Option (List net.Address) × net.World)
    (fread : ℕ → net.World → List ℕ × net.World) (fwrite : List ℕ → net.World → ℕ × net.World)
    (stdin : Input net fread) (stdout : Output net fwrite) (sock : ℕ)
    (stream : Stream net (some sock)) where
  open net use {World}

  -- fread prints nothing and leaves the connection alone.
  pub record Apart : Type 0 where
    pub printed-fread : (w : World) (n : ℕ) → stdout.printed (fread n w).1 ≡ stdout.printed w
    pub taken-fread : (w : World) (n : ℕ) → stream.taken (fread n w).1 ≡ stream.taken w
    pub incoming-fread : (w : World) (n : ℕ) → stream.incoming (fread n w).1 ≡ stream.incoming w

  -- What the world shows of stdout and of the connection.
  abbrev pub shown : World → List ℕ × List ℕ × List ℕ
  shown w = (stdout.printed w, stream.taken w, stream.incoming w)

  -- The data of a command: all of stdin for SET; and the world behind the reading.
  request_data_lem :
      (fuel : ℕ) (c : Command) (w : World)
      → Apart
      → length (stdin.input w) < fuel
      → length (stdin.input w) < 2 ^ 32
      → (value back : List ℕ) × (after : World) × (request_data heap net getaddrinfo fread fwrite
            fuel c w
          ≡ ok (value ++ back, length value, after))
        × ((key : List ℕ) → meant c key value ≡ meant c key (stdin.input w))
        × (length value < 2 ^ 32)
        × (shown after ≡ shown w)
  unfolding request_data
  request_data_lem fuel set_value w apart enough small =
      let (back, after, run, kept) =
        read_stdin_lem heap net getaddrinfo fread fwrite stdin shown fuel w
          (λ u n i.
            (apart.printed-fread u n i, apart.taken-fread u n i, apart.incoming-fread u n i))
          enough (omega arith) in
      (stdin.input w, back, after, rw run refl, (λ key. refl), small, kept)
  request_data_lem fuel get_value w apart enough small =
      ([], [], w, refl, (λ key. refl), omega arith, refl)
  request_data_lem fuel delete_value w apart enough small =
      ([], [], w, refl, (λ key. refl), omega arith, refl)
  request_data_lem fuel unknown w apart enough small =
      ([], [], w, refl, (λ key. refl), omega arith, refl)

  -- The client ends. From the state `w`, in which it has connected, it has come to `asked` by reading
  -- what it needs of stdin, has sent the message `q` from there, has received the reply, and reports it.
  pub record Ran (c : Command) (q : Message) (f : ℕ) (k v : List ℕ) (fuel : ℕ) (w : World)
      (run : Exec (Bool × World)) : Type 0 where
    pub code : Bool × World
    pub asked : World
    pub ends : run ≡ ok code
    pub block : List ℕ
    pub data_len : ℕ
    pub reads :
        request_data heap net getaddrinfo fread fwrite fuel c w ≡ ok (block, data_len, asked)
    pub untouched : shown asked ≡ shown w
    pub sent :
        Delivered net
          (some sock)
          stream
          (encode q)
          asked
          (sendall net (some sock) (encode q) (length (encode q)) asked)
    pub awaited : Awaited heap net getaddrinfo fread fwrite stdout fuel (some sock) q asked
    pub reported : Reported heap net getaddrinfo fread fwrite stdout c f k v awaited.received code

  pub main_lem :
      (hostname port method key : List ℕ) (more : List (List ℕ)) (q : Message) (f : ℕ)
      (k v : List ℕ) (fuel : ℕ) (w w1 : World)
      → Apart
      → connect_socket heap net getaddrinfo fread fwrite hostname port w ≡ (some sock, w1)
      → meant (command method) key (stdin.input w1) ≡ some q
      → length key < 2 ^ 16
      → length (stdin.input w1) < fuel
      → length (stdin.input w1) < 2 ^ 32
      → ((n : ℕ) (u : World) → (net.recv (some sock) n u).0 ≢ none)
      → IsMessage (request f k v)
      → ((u : World)
          → shown u ≡ shown w1
          → stream.incoming (sendall net (some sock) (encode q) (length (encode q)) u).1
            ≡ encode (request f k v))
      → length (encode (request f k v)) < fuel
      → Ran
          (command method)
          q
          f
          k
          v
          fuel
          w1
          (main heap net getaddrinfo fread fwrite fuel (hostname ∷ port ∷ method ∷ key ∷ more) w)
  unfolding main connected
  main_lem hostname port method key more q f k v fuel w w1 apart joined is_command hk hi hs no_error
        h answers enough =
      let (value, back, asked, read, same, hv, kept) =
        request_data_lem fuel (command method) w1 apart hi hs in
      let (code, run, (awaited, told), sent) =
        exchange_lem heap net getaddrinfo fread fwrite stdout (command method) key value back q
          (some sock) stream f k v fuel asked (same key ∙ is_command) hk hv no_error h
          (answers asked kept) enough in
      record {
        code = code;
        asked = asked;
        ends = rw (joined, read) run;
        block = value ++ back;
        data_len = length value;
        reads = read;
        untouched = kept;
        sent = sent;
        awaited = awaited;
        reported = told;
      }
