-- ===== src/Net/Unix.antt =====
-- kernel/src/net/unix.c and the socket operations of kernel/src/net/socket.c: local stream sockets.
--
-- A socket is named by a number, and `sockets` is the memory that holds the `socket_t` and, behind
-- `s->data`, the `unix_sock_t`. Of the array `buffer` of 4096 bytes the first `buf_len` are kept, as
-- a list: no code reads the others. A path is kept without its NUL. `registry` is the list of
-- `unix_sockets_head`. The inode that a path leads to comes from the file system, which is an
-- argument, and so is the socket behind that inode: the write of it in `unix_bind` is not part of the
-- state; `released` records the calls of `inode_put`. `ops` is true where `s->ops` is
-- `unix_stream_ops`, the only value that is ever stored, and false where it is NULL. `alloc` says whether `kmalloc` returns memory.
pub mod Connect
pub mod Stream
mod Tests
use ferrite_c.Common.{
  ℕ, zero, suc, ◌+◌, ◌-◌, Bool, true, false, not, ◌&&◌, ◌||◌, List, [], ◌∷◌, ◌++◌, Option, none,
  some, ltb, leb, ◌==◌, if◌then◌else◌, update, length, take, drop, Run, ok, fault, ◌>>=◌,
}
use ferrite_c.Common.Int.{ℤ, pos, negsuc, neg, ltb_zero}

pub data SockState : Type 0 where
  free unconnected connecting connected disconnecting : SockState

pub record UnixSock : Type 0 where
  pub path : List ℕ
  pub buffer : List ℕ

pub record Socket : Type 0 where
  pub type : ℕ
  pub state : SockState
  pub ops : Bool
  pub payload : Option UnixSock
  pub inode : Option ℕ
  pub conn : Option ℕ

pub record Net : Type 0 where
  pub sockets : ℕ → Socket
  pub registry : List ℕ
  pub released : List ℕ

-- What the code reads of an inode: its number in the cache, the kind in `i_mode`, the socket behind
-- it, and whether its `i_op` has a `create`.
pub record Node : Type 0 where
  pub ino : ℕ
  pub is_dir : Bool
  pub is_sock : Bool
  pub i_socket : Option ℕ
  pub has_create : Bool

abbrev pub capacity : ℕ
capacity = 4096

abbrev pub af_unix : ℕ
af_unix = 1

abbrev pub sizeof_sockaddr : ℕ
sizeof_sockaddr = 110

abbrev pub is_connected : SockState → Bool
is_connected connected = true
is_connected _ = false

abbrev pub is_unconnected : SockState → Bool
is_unconnected unconnected = true
is_unconnected _ = false

abbrev pub write_socket : Net → ℕ → Socket → Net
write_socket n s v = record n { sockets = update n.sockets s v }

abbrev pub put_inode : Net → ℕ → Net
put_inode n i = record n { released = i ∷ n.released }

abbrev pub is_none : Option ℕ → Bool
is_none none = true
is_none (some x) = false

pub register_socket : (alloc : Bool) → Net → ℕ → Net × ℤ
register_socket alloc n s =
    if alloc then (record n { registry = s ∷ n.registry }, pos 0) else (n, neg 12)

-- The walk of `unix_unregister_socket`: the list without the first node of the socket.
pub unlink : ℕ → List ℕ → Option (List ℕ)
unlink s [] = none
unlink s (x ∷ xs) =
    if x == s then some xs else elim (unlink s xs) [ none ↦ none | some ys ↦ some (x ∷ ys) ]

pub unregister_socket : Net → ℕ → Net × ℤ
unfolding unlink
unregister_socket n s = elim (unlink s n.registry) [
  | some rest ↦ (record n { registry = rest }, pos 0)
  | none ↦ (n, neg 1)
]

pub unix_create : (alloc : Bool) → Net → ℕ → Net × ℤ
unix_create alloc n s =
    if alloc
    then (
      write_socket n s
          (record (n.sockets s) { payload = some (record { path = []; buffer = [] }) }),
      pos 0,
    )
    else (n, neg 1)

-- A socket without its `data` is a read through NULL.
pub unix_listen : Net → ℕ → Run ℤ
unix_listen n s = elim ((n.sockets s).payload) [
  | none ↦ fault
  | some u ↦
      if length u.path == 0
      then ok (neg 1)
      else if not (is_unconnected (n.sockets s).state)
      then ok (neg 1)
      else ok (pos 0)
]

-- The text before the last '/', and the one behind it.
pub split_last : List ℕ → Option (List ℕ × List ℕ)
split_last [] = none
split_last (c ∷ cs) = elim (split_last cs) [
  | some (dir, file) ↦ some (c ∷ dir, file)
  | none ↦ if c == b'/' then some ([], cs) else none
]

-- The end of `unix_bind`, with the inode that `create` made.
pub bind_socket : (alloc : Bool) → Net → (s : ℕ) → UnixSock → (path : List ℕ) → (ino : ℕ) → Net × ℤ
unfolding register_socket
bind_socket alloc n s u path ino =
    let n' = write_socket n s (record (n.sockets s) {
      inode = some ino;
      payload = some (record u { path = take 107 path });
    }) in
    let (n'', err) = register_socket alloc n' s in
    if ltb_zero err
    then (
      write_socket n'' s (record (n''.sockets s) { payload = some (record u { path = [] }) }),
      neg 1,
    )
    else (n'', pos 0)

-- `lookup` is `vfs_lookup`, and `create dir name` is `parent->i_op->create`: an error, or the inode.
pub unix_bind :
    (lookup : List ℕ → Option Node) (create : ℕ → List ℕ → ℤ × ℕ) (alloc : Bool)
    → Net
    → (s family : ℕ) → (path : List ℕ) → (addrlen : ℕ) → Run (Net × ℤ)
unfolding split_last bind_socket
unix_bind lookup create alloc n s family path addrlen = elim ((n.sockets s).payload) [
  | none ↦ if ltb addrlen sizeof_sockaddr || not (family == af_unix) then ok (n, neg 22) else fault
  | some u ↦
      if ltb addrlen sizeof_sockaddr || not (family == af_unix) || not (length u.path == 0)
      then ok (n, neg 22)
      else elim (split_last path) [
        | none ↦ ok (n, neg 22)
        | some (dir, file) ↦ elim (lookup dir) [
          | none ↦ ok (n, neg 2)
          | some parent ↦
              if not parent.is_dir
              then ok (put_inode n parent.ino, neg 20)
              else elim (lookup file) [
                | some existing ↦ ok (put_inode (put_inode n existing.ino) parent.ino, neg 98)
                | none ↦
                    let n' = put_inode n parent.ino in
                    let (err, ino) = create parent.ino file in
                    if not parent.has_create
                    then ok (n', neg 1)
                    else if ltb_zero err
                    then ok (n', err)
                    else ok (bind_socket alloc n' s u path ino)
              ]
        ]
      ]
]

-- The three writes of `unix_connect`.
pub link_pair : Net → (s server : ℕ) → Net
link_pair n s server =
    let n1 = write_socket n s (record (n.sockets s) { conn = some server }) in
    let n2 = write_socket n1 server (record (n1.sockets server) { conn = some s }) in
    write_socket n2 s (record (n2.sockets s) { state = connecting })

pub unix_connect :
    (lookup : List ℕ → Option Node)
    → Net
    → (s family : ℕ) → (path : List ℕ) → (len : ℕ) → Run (Net × ℤ)
unfolding link_pair
unix_connect lookup n s family path len =
    if ltb len sizeof_sockaddr || not (family == af_unix)
    then ok (n, neg 22)
    else elim (lookup path) [
      | none ↦ ok (n, neg 2)
      | some node ↦
          if not node.is_sock then ok (put_inode n node.ino, neg 111) else elim node.i_socket [
            | none ↦ fault
            | some server ↦
                if not (is_none (n.sockets server).conn)
                then ok (n, neg 1)
                else ok (link_pair n s server, pos 0)
          ]
    ]

-- The writes of `unix_accept`: the new socket is connected to the client, and the listening one is
-- ready for the next.
pub accept_client : Net → (s newsock client : ℕ) → Net
accept_client n s newsock client =
    let n1 = write_socket n newsock (record (n.sockets newsock) {
      payload = some (record { path = []; buffer = [] });
      type = (n.sockets s).type;
      state = connected;
      ops = (n.sockets s).ops;
      conn = some client;
    }) in
    let n2 =
      write_socket n1 client
        (record (n1.sockets client) { state = connected; conn = some newsock }) in
    write_socket n2 s (record (n2.sockets s) { conn = none })

-- `none` where the call yields until some client connects.
pub unix_accept : (alloc : Bool) → Net → (s newsock : ℕ) → Option (Net × ℤ)
unix_accept alloc n s newsock = elim ((n.sockets s).conn) [
  | none ↦ none
  | some client ↦ if alloc then some (accept_client n s newsock client, pos 0) else some (n, neg 12)
]

-- The new state, the result, and the bytes written to the caller's buffer.
pub unix_recvmsg : Net → (s len : ℕ) → Run (Net × ℤ × List ℕ)
unix_recvmsg n s len =
    if not (is_connected (n.sockets s).state)
    then ok (n, neg 1, [])
    else elim ((n.sockets s).payload) [
      | none ↦ fault
      | some u ↦
          let to_read = if ltb len (length u.buffer) then len else length u.buffer in
          if length u.buffer == 0
          then ok (n, neg 1, [])
          else ok (
            write_socket n s (record (n.sockets s) {
              payload = some (record u { buffer = drop to_read u.buffer });
            }),
            pos to_read,
            take to_read u.buffer,
          )
    ]

-- `buf` holds the `len` bytes to be sent.
pub unix_sendmsg : Net → (s : ℕ) → (buf : List ℕ) → Run (Net × ℤ)
unix_sendmsg n s buf =
    if not (is_connected (n.sockets s).state) then ok (n, neg 1) else elim ((n.sockets s).conn) [
      | none ↦ ok (n, neg 1)
      | some peer ↦ elim ((n.sockets peer).payload) [
        | none ↦ fault
        | some u ↦
            let space = capacity - length u.buffer in
            let to_copy = if ltb space (length buf) then space else length buf in
            if to_copy == 0
            then ok (n, pos 0)
            else ok (
              write_socket n peer (record (n.sockets peer) {
                payload = some (record u { buffer = u.buffer ++ take to_copy buf });
              }),
              pos to_copy,
            )
      ]
    ]

pub unix_shutdown : Net → (s : ℕ) → Net × ℤ
unix_shutdown n s =
    (write_socket n s (record (n.sockets s) { state = disconnecting; conn = none }), pos 0)

-- `socket_read`, `socket_write` and `socket_release` of socket.c, on the inode of an open socket.
pub socket_read : Net → Node → (len : ℕ) → Run (Net × ℤ × List ℕ)
unfolding unix_recvmsg
socket_read n node len = if not node.is_sock then ok (n, neg 1, []) else elim node.i_socket [
  | none ↦ ok (n, neg 1, [])
  | some s ↦ if (n.sockets s).ops then unix_recvmsg n s len else ok (n, neg 1, [])
]

pub socket_write : Net → Node → (buf : List ℕ) → Run (Net × ℤ)
unfolding unix_sendmsg
socket_write n node buf = if not node.is_sock then ok (n, neg 1) else elim node.i_socket [
  | none ↦ ok (n, neg 1)
  | some s ↦ if (n.sockets s).ops then unix_sendmsg n s buf else ok (n, neg 1)
]

-- What `socket_release` does after the shutdown.
pub forget_path : Net → (s : ℕ) → Net
unfolding unregister_socket
forget_path n s = elim ((n.sockets s).payload) [
  | none ↦ n
  | some u ↦
      if length u.path == 0
      then n
      else (let n' = (unregister_socket n s).0 in
          write_socket n' s (record (n'.sockets s) { payload = some (record u { path = [] }) }))
]

pub socket_release : Net → Node → Net
unfolding unix_shutdown forget_path
socket_release n node = if not node.is_sock then n else elim node.i_socket [
  | none ↦ n
  | some s ↦ forget_path (if (n.sockets s).ops then (unix_shutdown n s).0 else n) s
]
