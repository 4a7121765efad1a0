-- ===== src/Net/Unix/Connect.antt =====
-- Setting up a connection between two local sockets, and binding one to a path.
use ferrite_c.Common.{
  ℕ, ◌≤◌, ◌≡◌, ◌≢◌, refl, true, false, List, [], Option, none, some, ltb, ◌==◌, length, ok, arith,
  le→ltb, ◌∙◌,
}
use ferrite_c.Common.Int.{pos, neg}
use ferrite_c.Net.Unix.{
  Net, Node, link_pair, accept_client, capacity, UnixSock, connected, connecting, af_unix,
  sizeof_sockaddr, unix_connect, unix_accept,
}
use ferrite_c.Net.Unix.Stream.{IsLink, Carried, Transfer, transfer_all, transfer_all-Carried}

-- The inode that a path leads to is that of the listening socket s, with no client waiting.
pub record Listens (lookup : List ℕ → Option Node) (path : List ℕ) (n : Net) (s : ℕ) : Type 0 where
  pub node : Node
  pub found : lookup path ≡ some node
  pub is_sock : node.is_sock ≡ true
  pub socket : node.i_socket ≡ some s
  pub no_client : (n.sockets s).conn ≡ none

-- What a connect leaves: client and server point to one another.
pub record Waiting (n : Net) (client s : ℕ) (n' : Net) : Type 0 where
  pub client_conn : (n'.sockets client).conn ≡ some s
  pub server_conn : (n'.sockets s).conn ≡ some client
  pub state : (n'.sockets client).state ≡ connecting
  pub payload : (n'.sockets client).payload ≡ (n.sockets client).payload
  pub others : (x : ℕ) → x ≢ client → x ≢ s → n'.sockets x ≡ n.sockets x
  pub released : n'.released ≡ n.released

different : (x y : ℕ) → x ≢ y → (x == y) ≡ false
different x y h = ground arith

link_pair-Waiting :
    (n : Net) (client s : ℕ) → client ≢ s → Waiting n client s (link_pair n client s)
unfolding link_pair
link_pair-Waiting n client s ne = record {
  client_conn = ground arith;
  server_conn = ground arith;
  state = ground arith;
  payload = ground arith;
  others = λ x a b. ground arith;
  released = refl;
}

-- A connect to a listening socket with no client waiting succeeds; the two sockets then point to
-- one another, and no other socket changes. The inode that `vfs_lookup` returned with a reference
-- is not released. A further client's connect is refused, and changes nothing.
pub connect-Waiting :
    (lookup : List ℕ → Option Node) (path : List ℕ) (n : Net) (client other s len : ℕ)
    → Listens lookup path n s
    → client ≢ s
    → sizeof_sockaddr ≤ len
    → (n' : Net) × (unix_connect lookup n client af_unix path len ≡ ok (n', pos 0))
      × Waiting n client s n'
      × (unix_connect lookup n' other af_unix path len ≡ ok (n', neg 1))
unfolding unix_connect
connect-Waiting lookup path n client other s len l ne h =
    let long : ltb len sizeof_sockaddr ≡ false = le→ltb _ _ h in
    let w = link_pair-Waiting n client s ne in
    (
      link_pair n client s,
      rw (long, l.found, l.is_sock, l.socket, l.no_client) refl,
      w,
      rw (long, l.found, l.is_sock, l.socket, w.server_conn) refl,
    )

-- What the writes of an accept leave.
record Accepted (n : Net) (client newsock s : ℕ) (n' : Net) : Type 0 where
  server_conn : (n'.sockets s).conn ≡ none
  client_conn : (n'.sockets client).conn ≡ some newsock
  new_conn : (n'.sockets newsock).conn ≡ some client
  client_state : (n'.sockets client).state ≡ connected
  new_state : (n'.sockets newsock).state ≡ connected
  client_payload : (n'.sockets client).payload ≡ (n.sockets client).payload
  new_payload : (n'.sockets newsock).payload ≡ some (record { path = []; buffer = [] })

accept_client-Accepted :
    (n : Net) (client newsock s : ℕ)
    → client ≢ s
    → newsock ≢ s
    → newsock ≢ client
    → Accepted n client newsock s (accept_client n s newsock client)
unfolding accept_client
accept_client-Accepted n client newsock s a b c = record {
  server_conn = ground arith;
  client_conn = ground arith;
  new_conn = ground arith;
  client_state = ground arith;
  new_state = ground arith;
  client_payload = ground arith;
  new_payload = ground arith;
}

accept_returns :
    (n : Net) (s newsock client : ℕ)
    → (n.sockets s).conn ≡ some client
    → unix_accept true n s newsock ≡ some (accept_client n s newsock client, pos 0)
unfolding unix_accept
accept_returns n s newsock client waiting = rw (unix_accept, waiting) refl

-- Accepting a waiting client on a new socket: the client and the new socket are connected to one
-- another, with an empty buffer at the new socket and what the client's buffer held, and the
-- listening socket has no client again.
pub accept-IsLink :
    (n : Net) (client s newsock : ℕ) (u : UnixSock)
    → (n.sockets s).conn ≡ some client
    → (n.sockets client).payload ≡ some u
    → length u.buffer ≤ capacity
    → client ≢ s
    → newsock ≢ s
    → newsock ≢ client
    → (n' : Net) × (unix_accept true n s newsock ≡ some (n', pos 0))
      × IsLink client newsock n' []
      × IsLink newsock client n' u.buffer
      × ((n'.sockets s).conn ≡ none)
accept-IsLink n client s newsock u waiting payload fits a b c =
    let w = accept_client-Accepted n client newsock s a b c in
    (
      accept_client n s newsock client,
      accept_returns n s newsock client waiting,
      record {
        path = [];
        sender = w.client_state;
        peer = w.client_conn;
        receiver = w.new_state;
        holds = w.new_payload;
        fits = ground arith;
      },
      record {
        path = u.path;
        sender = w.new_state;
        peer = w.new_conn;
        receiver = w.client_state;
        holds = w.client_payload ∙ payload;
        fits = fits;
      },
      w.server_conn,
    )

-- From a listening socket for which no client waits to a stream: the client's connect succeeds, the accept
-- that follows, with memory for the new socket, succeeds, and then every sequence of sends by the client and receives at the new socket delivers
-- exactly the bytes that were accepted, in order, from an empty buffer.
pub connect_accept-Carried :
    (lookup : List ℕ → Option Node) (path : List ℕ) (n : Net) (client s newsock len : ℕ)
    (u : UnixSock)
    → Listens lookup path n s
    → (n.sockets client).payload ≡ some u
    → length u.buffer ≤ capacity
    → sizeof_sockaddr ≤ len
    → client ≢ s
    → newsock ≢ s
    → newsock ≢ client
    → (n1 : Net) × (n2 : Net) × (unix_connect lookup n client af_unix path len ≡ ok (n1, pos 0))
      × (unix_accept true n1 s newsock ≡ some (n2, pos 0))
      × ((ts : List Transfer) → Carried client newsock [] (transfer_all client newsock n2 ts))
connect_accept-Carried lookup path n client s newsock len u l payload fits long a b c =
    let (n1, connects, w, _) = connect-Waiting lookup path n client newsock s len l a long in
    let (n2, accepts, there, _, _) =
      accept-IsLink n1 client s newsock u w.server_conn (w.payload ∙ payload) fits a b c in
    (n1, n2, connects, accepts, λ ts. transfer_all-Carried client newsock n2 [] ts there)
