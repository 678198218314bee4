-- ===== src/Server/Invariant/Prepared.antt =====
-- Making room in a client's read buffer keeps the invariant.
use why.Base.{
  ℕ, ◌-◌, ◌^◌, ◌≡◌, refl, ap, subst, inl, inr, List, some, arith, false, Bool-cases, ℤ, ◌==ℤ◌,
  ==ℤ_iff, ==ℤ_refl,
}
use why.ArrayList.Entries.{lookup}
use why.ReadBuf.{ReadBuf, prepare_read}
use why.ReadBuf.Arrives.{prepare_read-IsReading, prepare_read_bounded}
use why.Request.{Request}
use why.Proc.{Proc}
use why.Server.{Server, Client, Buffers, update}
use why.Server.Clients.{read_once}
use why.Server.View.{IsGood}
use why.Server.Invariant.{Invariant, IsReceiving, IsReceiving-keeps}

-- Only the read buffers change.
pub readbufs-IsGood :
    (s : Server) (bufs : ℤ → Buffers) (cs : List (ℤ × Client)) (ps : List (ℤ × Proc))
    (rs : List Request) (starts room : ℕ)
    → ((k : ℤ) → (bufs k).writebuf ≡ (s.buffers k).writebuf)
    → IsGood s cs ps rs starts room
    → IsGood (record s { buffers = bufs }) cs ps rs starts room
readbufs-IsGood s bufs cs ps rs starts room same g = record {
  set_up = g.set_up;
  clients = g.clients;
  procs = g.procs;
  queue = g.queue;
  procs_room = g.procs_room;
  clients_room = g.clients_room;
  low_room = g.low_room;
  runnable = g.runnable;
  entries = g.entries;
  entries_room = g.entries_room;
  poll = g.poll;
  buffers = λ k c found. rw (same k) (g.buffers k c found);
  watched = λ k c found. rw (same k) (g.watched k c found);
}

pub update-writebuf :
    (bufs : ℤ → Buffers) (fd k : ℤ) (b : ReadBuf)
    → (update bufs fd (record (bufs fd) { readbuf = b }) k).writebuf ≡ (bufs k).writebuf
update-writebuf bufs fd k b = elim (Bool-cases (fd ==ℤ k)) [
  | inl here ↦ rw here (ap (λ j. (bufs j).writebuf) ((==ℤ_iff fd k).0 here))
  | inr other ↦ rw other
]

-- Room is made in the client's read buffer.
abbrev pub prepared : Server → ℤ → Server
prepared s fd = record s {
  buffers =
      update s.buffers fd
        (record (s.buffers fd) { readbuf = (prepare_read (s.buffers fd).readbuf read_once).0 });
}

prepared-IsReceiving :
    (s : Server) (fd : ℤ) (n : ℕ) → IsReceiving s fd n → IsReceiving (prepared s fd) fd n
prepared-IsReceiving s fd n r =
    let b = (s.buffers fd).readbuf in
    let (at, reading, bound) =
      prepare_read-IsReading read_once b r.part (omega (arith, r.low)) r.holds in
    let tight =
      prepare_read_bounded read_once b r.part (2 ^ 60 - 1) (omega (arith, r.low)) r.holds
        (omega (arith, r.short)) (omega (arith, r.low)) in
    record {
      part = r.part;
      holds = rw (==ℤ_refl fd) (reading.holds);
      unread = r.unread;
      short = r.short;
      low = rw (==ℤ_refl fd) (omega (arith, tight));
    }

pub prepared-Invariant :
    (s : Server) (fd : ℤ) (c : Client) (n : ℕ) (v : Invariant s n)
    → lookup fd v.clients ≡ some c
    → (v' : Invariant (prepared s fd) n) × (v'.clients ≡ v.clients)
prepared-Invariant s fd c n v found = (
  record {
    clients = v.clients;
    procs = v.procs;
    queue = v.queue;
    good =
        readbufs-IsGood s (prepared s fd).buffers v.clients v.procs v.queue _ _
          (λ k. update-writebuf s.buffers fd k (prepare_read (s.buffers fd).readbuf read_once).0)
          v.good;
    named = v.named;
    receiving = λ k c' here. elim (Bool-cases (fd ==ℤ k)) [
      | inl own ↦
          subst (λ j. IsReceiving (prepared s fd) j n) ((==ℤ_iff fd k).0 own)
            (prepared-IsReceiving s fd n (v.receiving fd c found))
      | inr other ↦
          IsReceiving-keeps s (prepared s fd) k n n (omega arith) (rw other) (v.receiving k c' here)
    ];
  },
  refl,
)

-- Only the read buffer of one client changes.
pub all_writebufs :
    (s : Server) (fd : ℤ) (bufs : ℤ → Buffers)
    → (bufs fd).writebuf ≡ (s.buffers fd).writebuf
    → ((k : ℤ) → (fd ==ℤ k) ≡ false → bufs k ≡ s.buffers k)
    → (k : ℤ) → (bufs k).writebuf ≡ (s.buffers k).writebuf
all_writebufs s fd bufs own others k = elim (Bool-cases (fd ==ℤ k)) [
  | inl mine ↦ subst (λ j. (bufs j).writebuf ≡ (s.buffers j).writebuf) ((==ℤ_iff fd k).0 mine) own
  | inr other ↦ ap (λ x. x.writebuf) (others k other)
]
