-- ===== src/Net/Unix/Tests.antt =====
-- unix.c on three sockets: a listening one, a client and the one that the client is accepted on.
use ferrite_c.Common.{
  ℕ, ◌≡◌, refl, true, false, List, [], ◌∷◌, Option, none, some, ok, arith, if◌then◌else◌, ◌==◌,
}
use ferrite_c.Common.Int.{pos}
use ferrite_c.Net.Unix.{
  Net, Node, Socket, UnixSock, unconnected, connected, af_unix, unix_connect, unix_accept,
}
use ferrite_c.Net.Unix.Stream.{
  IsLink, Carried, Transfer, send, recv, transfer_all, transfer_all-Carried,
}
use ferrite_c.Net.Unix.Connect.{Listens, connect_accept-Carried}

abbrev empty : UnixSock
empty = record { path = []; buffer = [] }

abbrev fresh : Socket
fresh = record {
  type = 1;
  state = unconnected;
  ops = true;
  payload = some empty;
  inode = none;
  conn = none;
}

abbrev start : Net
start = record { sockets = λ s. fresh; registry = []; released = [] }

abbrev server_node : Node
server_node = record {
  ino = 7;
  is_dir = false;
  is_sock = true;
  i_socket = some 1;
  has_create = false;
}

abbrev server_path : List ℕ
server_path = b's' ∷ []

abbrev lookup : List ℕ → Option Node
lookup path = some server_node

listens : Listens lookup server_path start 1
listens = record {
  node = server_node;
  found = refl;
  is_sock = refl;
  socket = refl;
  no_client = refl;
}

-- A client that is waiting at socket 1.
abbrev waiting : Net
waiting = record start { sockets = λ s. if s == 1 then record fresh { conn = some 2 } else fresh }

-- Sockets 2 and 3 connected to one another.
abbrev pair : Net
pair = record start {
  sockets = λ s. record fresh { state = connected; conn = if s == 2 then some 3 else some 2 };
}

link : IsLink 2 3 pair []
link = record {
  path = [];
  sender = refl;
  peer = refl;
  receiver = refl;
  holds = refl;
  fits = omega arith;
}

transfer_all-Carried_example :
    Carried 2 3 [] (transfer_all 2 3 pair (send (5 ∷ 6 ∷ 7 ∷ []) ∷ recv 2 ∷ recv 9 ∷ []))
transfer_all-Carried_example =
    transfer_all-Carried 2 3 pair [] (send (5 ∷ 6 ∷ 7 ∷ []) ∷ recv 2 ∷ recv 9 ∷ []) link

connect_accept-Carried_example :
    (n1 : Net) × (n2 : Net) × (unix_connect lookup start 2 af_unix server_path 110 ≡ ok (n1, pos 0))
    × (unix_accept true n1 1 3 ≡ some (n2, pos 0))
    × ((ts : List Transfer) → Carried 2 3 [] (transfer_all 2 3 n2 ts))
connect_accept-Carried_example =
    connect_accept-Carried lookup server_path start 2 1 3 110 empty listens refl (omega arith)
      (omega arith) (ground arith) (ground arith) (ground arith)
