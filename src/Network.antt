-- ===== src/Network.antt =====
-- The operating system's calls that the peer, the client and the server make, as operations on a
-- state of the outside world that the program cannot look into. A descriptor is a number; a call's
-- negative result is `none`.
use rn.Prelude.{ℕ, ◌≡◌, ◌≤◌, ◌<◌, Bool, Option, some, List, [], ◌++◌, length, take}

-- What poll reports: for stdin, for the listening socket, and for each further descriptor in order,
-- whether its `revents` are exactly POLLIN.
pub data Poll : Type 0 where
  poll_failed timed_out : Poll
  ready : Bool → Bool → List Bool → Poll

pub record Network : Type 1 where
  pub World : Type 0
  -- What getaddrinfo finds for a host and a port, or that it fails: the entries of its list.
  pub Address : Type 0
  -- The address whose bytes are all 0, and the IPv4 address in one.
  pub blank : Address
  pub ip_of : Address → ℕ
  -- inet_ntop: an IPv4 address as text.
  pub inet_ntop : ℕ → List ℕ
  pub getaddrinfo : List ℕ → ℕ → World → Option (List Address) × World
  -- getaddrinfo for a listening socket: no host, and the port as text, or NULL.
  pub passive : Option (List ℕ) → World → Option (List Address) × World
  pub socket : World → Option ℕ × World
  pub bind : Option ℕ → Address → World → Bool × World
  pub listen : Option ℕ → World → Bool × World
  pub connect : Option ℕ → Address → World → Bool × World
  -- send(s, buffer, n, 0) is given the `n` bytes, and answers how many it took.
  pub send : Option ℕ → List ℕ → World → Option ℕ × World
  -- recv(s, buffer, n, 0) answers with the bytes that it wrote; none at the end of the stream.
  pub recv : Option ℕ → ℕ → World → Option (List ℕ) × World
  pub accept : Option ℕ → World → Option ℕ × World
  pub poll : List (Option ℕ) → World → Poll × World
  pub close : Option ℕ → World → World

-- What POSIX promises of send and recv on a connected stream socket, told by what has been taken
-- for sending and by what is still to be received.
pub record Stream (net : Network) (s : Option ℕ) : Type 0 where
  pub taken : net.World → List ℕ
  pub incoming : net.World → List ℕ
  -- send takes a first part of what it is given, and by one call, as Linux documents it for write and
  -- similar calls, not more than 0x7ffff000 bytes.
  pub taken-send :
      (w : net.World) (bytes : List ℕ) (n : ℕ)
      → (net.send s bytes w).0 ≡ some n
      → (n ≤ length bytes)
        × (taken (net.send s bytes w).1 ≡ taken w ++ take n bytes)
        × (n ≤ 0x7ffff000)
  -- recv fails, or delivers the next part of what comes in, in order; and it delivers some where
  -- there is room for some and some to come.
  pub incoming-recv :
      (w : net.World) (n : ℕ) (bytes : List ℕ)
      → (net.recv s n w).0 ≡ some bytes
      → (length bytes ≤ n)
        × (incoming w ≡ bytes ++ incoming (net.recv s n w).1)
        × (0 < n → bytes ≡ [] → incoming w ≡ [])
