-- ===== src/Net/Unix/Stream.antt =====
-- A connected pair of local sockets carries a stream of bytes.
use mathlib.Core.List.{append_assoc, append-nil}
use ferrite_c.Common.{
  ℕ, ◌-◌, ◌≤◌, ◌≡◌, refl, List, [], ◌∷◌, ◌++◌, some, ltb, ◌==◌, if◌then◌else◌, length, take, drop,
  Run, ok, ◌>>=◌, arith, ap, sym, ◌∙◌, length-append, length-take, length-drop, take-append-drop,
  Bool-cases, inl, inr, ==_iff,
}
use ferrite_c.Common.Int.{ℤ, pos, negsuc}
use ferrite_c.Net.Unix.{Net, connected, capacity, unix_sendmsg, unix_recvmsg, write_socket}

-- A transfer over the pair: the sender offers bytes, or the receiver asks for some.
pub data Transfer : Type 0 where
  send : List ℕ → Transfer
  recv : ℕ → Transfer

-- What the result of a send says was accepted.
abbrev pub accepted : ℤ → List ℕ → List ℕ
accepted (pos k) buf = take k buf
accepted (negsuc k) buf = []

-- One transfer from a to b: the new state, the bytes accepted from the sender, and those handed to
-- the receiver.
pub transfer : (a b : ℕ) → Net → Transfer → Run (Net × List ℕ × List ℕ)
unfolding unix_sendmsg unix_recvmsg
transfer a b n (send buf) = unix_sendmsg n a buf >>= λ (n', k). ok (n', accepted k buf, [])
transfer a b n (recv len) = unix_recvmsg n b len >>= λ (n', k, bytes). ok (n', [], bytes)

pub transfer_all : (a b : ℕ) → Net → List Transfer → Run (Net × List ℕ × List ℕ)
unfolding transfer
transfer_all a b n [] = ok (n, [], [])
transfer_all a b n (t ∷ ts) = transfer a b n t >>= λ (n', sent, got).
    transfer_all a b n' ts >>= λ (n'', sent', got'). ok (n'', sent ++ sent', got ++ got')

-- `a` is connected to `b`, which is connected, and the bytes on the way are `buffer`.
pub record IsLink (a b : ℕ) (n : Net) (buffer : List ℕ) : Type 0 where
  pub path : List ℕ
  pub sender : (n.sockets a).state ≡ connected
  pub peer : (n.sockets a).conn ≡ some b
  pub receiver : (n.sockets b).state ≡ connected
  pub holds : (n.sockets b).payload ≡ some (record { path = path; buffer = buffer })
  pub fits : length buffer ≤ capacity

-- The transfer returned; what had been on the way and what was accepted is what was handed over and
-- what is on the way now.
pub record Carried (a b : ℕ) (buffer : List ℕ) (r : Run (Net × List ℕ × List ℕ)) : Type 0 where
  pub after : Net
  pub sent : List ℕ
  pub got : List ℕ
  pub rest : List ℕ
  pub returns : r ≡ ok (after, sent, got)
  pub link : IsLink a b after rest
  pub conserved : buffer ++ sent ≡ got ++ rest

module _ (a b : ℕ) (n : Net) (buffer : List ℕ) (l : IsLink a b n buffer) where
  -- The receiver's buffer may be changed; the link stays.
  IsLink-write :
      (new : List ℕ)
      → length new ≤ capacity
      → IsLink a b
          (write_socket n b
            (record (n.sockets b) { payload = some (record { path = l.path; buffer = new }) }))
          new
  IsLink-write new h = record {
    path = l.path;
    sender = elim (Bool-cases (b == a)) [ inl e ↦ rw e l.receiver | inr e ↦ rw e l.sender ];
    peer = elim (Bool-cases (b == a)) [
      | inl e ↦
          let e' : b ≡ a = ground arith in rw e (ap (λ (t : ℕ). (n.sockets t).conn) e' ∙ l.peer)
      | inr e ↦ rw e l.peer
    ];
    receiver = rw ((==_iff b b).1 refl) l.receiver;
    holds = rw ((==_iff b b).1 refl);
    fits = h;
  }

  -- A transfer that moves nothing.
  idle : Carried a b buffer (ok (n, [], []))
  idle = record {
    after = n;
    sent = [];
    got = [];
    rest = buffer;
    returns = refl;
    link = l;
    conserved = append-nil buffer;
  }

  send_some :
      (k : ℕ) (buf : List ℕ)
      → k ≤ capacity - length buffer
      → Carried a b buffer (
          ok (
            write_socket n b (record (n.sockets b) {
              payload = some (record { path = l.path; buffer = buffer ++ take k buf });
            }),
            take k buf,
            [],
          ))
  send_some k buf h = record {
    after = _;
    sent = take k buf;
    got = [];
    rest = buffer ++ take k buf;
    returns = refl;
    link =
        IsLink-write (buffer ++ take k buf)
          (omega (arith, l.fits, length-append buffer (take k buf), length-take k buf));
    conserved = refl;
  }

  recv_some :
      (k : ℕ)
      → Carried a b buffer (
          ok (
            write_socket n b (record (n.sockets b) {
              payload = some (record { path = l.path; buffer = drop k buffer });
            }),
            [],
            take k buffer,
          ))
  recv_some k = record {
    after = _;
    sent = [];
    got = take k buffer;
    rest = drop k buffer;
    returns = refl;
    link = IsLink-write (drop k buffer) (omega (arith, l.fits, length-drop k buffer));
    conserved = append-nil buffer ∙ sym (take-append-drop k buffer);
  }

  send-Carried : (buf : List ℕ) → Carried a b buffer (transfer a b n (send buf))
  unfolding transfer unix_sendmsg
  send-Carried buf =
      let space : ℕ = capacity - length buffer in
      let k : ℕ = if ltb space (length buf) then space else length buf in
      let bound : k ≤ space = ground arith in
      rw (l.sender, l.peer, l.holds)
        (elim (Bool-cases (k == 0)) [ inl e ↦ rw e idle | inr e ↦ rw e (send_some k buf bound) ])

  recv-Carried : (len : ℕ) → Carried a b buffer (transfer a b n (recv len))
  unfolding transfer unix_recvmsg
  recv-Carried len =
      rw (l.receiver, l.holds)
        (elim (Bool-cases (length buffer == 0)) [
          | inl e ↦ rw e idle
          | inr e ↦ rw e (recv_some (if ltb len (length buffer) then len else length buffer))
        ])

  transfer-Carried : (t : Transfer) → Carried a b buffer (transfer a b n t)
  transfer-Carried (send buf) = send-Carried buf
  transfer-Carried (recv len) = recv-Carried len

-- The lists of a transfer and of those after it.
joined_lists :
    (buffer sent got rest sent' got' rest' : List ℕ)
    → buffer ++ sent ≡ got ++ rest
    → rest ++ sent' ≡ got' ++ rest'
    → buffer ++ (sent ++ sent') ≡ (got ++ got') ++ rest'
joined_lists buffer sent got rest sent' got' rest' e e' =
    sym (append_assoc buffer sent sent')
    ∙ ap (λ (t : List ℕ). t ++ sent') e
    ∙ append_assoc got rest sent'
    ∙ ap (λ (t : List ℕ). got ++ t) e'
    ∙ sym (append_assoc got got' rest')

after_first :
    (a b : ℕ) (buffer rest : List ℕ) (sent got : List ℕ) {r : Run (Net × List ℕ × List ℕ)}
    → buffer ++ sent ≡ got ++ rest
    → Carried a b rest r
    → Carried a b buffer (r >>= λ x. ok (x.0, sent ++ x.1, got ++ x.2))
after_first a b buffer rest sent got e c = rw c.returns (record {
  after = c.after;
  sent = sent ++ c.sent;
  got = got ++ c.got;
  rest = c.rest;
  returns = refl;
  link = c.link;
  conserved = joined_lists buffer sent got rest c.sent c.got c.rest e c.conserved;
})

-- Over a connected pair of sockets every sequence of sends and receives returns. The bytes handed
-- to the receiver, followed by those still in its buffer, are the bytes that were in the buffer
-- before, followed by those that the sends accepted, in order: none is lost, doubled or reordered. The
-- buffer stays within its 4096 bytes, and the pair stays connected.
pub transfer_all-Carried :
    (a b : ℕ) (n : Net) (buffer : List ℕ) (ts : List Transfer)
    → IsLink a b n buffer
    → Carried a b buffer (transfer_all a b n ts)
unfolding transfer_all
transfer_all-Carried a b n buffer [] l = idle a b n buffer l
transfer_all-Carried a b n buffer (t ∷ ts) l =
    let c = transfer-Carried a b n buffer l t in
    rw c.returns (
      after_first a b buffer c.rest c.sent c.got c.conserved
        (transfer_all-Carried a b c.after c.rest ts c.link))
