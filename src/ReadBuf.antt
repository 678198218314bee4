-- ===== src/ReadBuf.antt =====
-- src/server/readbuf.h and readbuf.c: the bytes read from a client and not yet used.
-- `size_t` is a number below 2 ^ 64 with its wrap-around written out.
pub mod Refine
pub mod Arrives
use why.Base.{
  ℕ, zero, suc, ◌+◌, ◌-◌, ◌*◌, ◌%◌, ◌^◌, List, [], ◌∷◌, ltb, leb, if◌then◌else◌, Outcome, ok, ◌>>=◌,
  ◌>>◌, assert,
}
use why.Base.Memory.{Block, malloc, store, realloc, memcpy}

-- `t_readbuf`; the field `bytes` is the C field `data`.
pub record ReadBuf : Type 0 where
  pub bytes : Block ℕ
  pub len : ℕ
  pub capacity : ℕ

abbrev pub size_mod : ℕ
size_mod = 2 ^ 64

unfoldable pub init_readbuf : ℕ → Outcome ReadBuf
init_readbuf capacity = do
  assert (ltb 0 capacity)
  ok (record { bytes = malloc capacity; len = 0; capacity = capacity })

resize_readbuf : ReadBuf → ℕ → ReadBuf
resize_readbuf b newcapacity = record b {
  bytes = realloc b.bytes newcapacity;
  capacity = newcapacity;
}

-- The pointer that C returns is the index of the first free byte.
unfoldable pub prepare_read : ReadBuf → ℕ → ReadBuf × ℕ
unfolding resize_readbuf
prepare_read b size =
    if ltb b.capacity ((b.len + size) % size_mod)
    then (resize_readbuf b ((b.capacity + size) % size_mod * 2 % size_mod), b.len)
    else (b, b.len)

unfoldable pub have_read : ReadBuf → ℕ → Outcome ReadBuf
have_read b size = do
  assert (leb ((b.len + size) % size_mod) b.capacity)
  ok (record b { len = (b.len + size) % size_mod })

unfoldable pub have_taken : ReadBuf → ℕ → Outcome ReadBuf
have_taken b size = do
  assert (leb size b.len)
  bytes ← memcpy b.bytes 0 size (b.len - size)
  ok (record b { bytes = bytes; len = b.len - size })

unfoldable pub clear_readbuf : ReadBuf → ReadBuf
clear_readbuf b = record b { len = 0 }

-- What `read` does to the memory that it is handed: it writes the bytes that arrived.
unfoldable pub fill : Block ℕ → ℕ → List ℕ → Outcome (Block ℕ)
fill b i [] = ok b
fill b i (c ∷ cs) = do b' ← store b i c; fill b' (suc i) cs
