-- ===== src/Windows/Keys.antt =====
-- The keys of clients and processes, and the keys under which the completion port knows them.
use why.Base.{
  ℕ, zero, suc, ◌+◌, ◌*◌, ◌/◌, ◌%◌, ◌^◌, Option, none, some, ltb, ◌==◌, if◌then◌else◌, Outcome, ok,
  ◌>>=◌, ◌>>◌, require,
}
use why.Base.Memory.{Block, load}
use why.Windows.{WindowsServer}

-- `gen_key` is an `int`.
unfoldable pub keygen : WindowsServer → Outcome (ℕ × WindowsServer)
keygen s = do
  require (ltb (s.gen_key + 1) (2 ^ 31))
  ok (s.gen_key, record s { gen_key = s.gen_key + 1 })

-- `SOCKET` and `PROCESS`
pub data Kind : Type 0 where
  socket process : Kind

abbrev pub kind_number : Kind → ℕ
kind_number socket = 0
kind_number process = 1

-- The product is one of `int`.
unfoldable pub to_ms_key : ℕ → Kind → Outcome ℕ
to_ms_key key kind = do
  require (ltb (key * 2 + kind_number kind) (2 ^ 31))
  ok (key * 2 + kind_number kind)

unfoldable pub kind_of_ms_key : ℕ → Kind
kind_of_ms_key ms = if ms % 2 == 0 then socket else process

unfoldable pub key_of_ms_key : ℕ → ℕ
key_of_ms_key ms = ms / 2

-- The loop of `get_server_num`, with the number of rounds left; `none` is -1.
unfoldable pub server_num_from : Block ℕ → ℕ → ℕ → ℕ → Outcome (Option ℕ)
server_num_from keys key zero i = ok none
server_num_from keys key (suc rounds) i =
    let next = server_num_from keys key rounds (i + 1) in
    do k ← load keys i; if k == key then ok (some i) else next

unfoldable pub get_server_num : WindowsServer → ℕ → Outcome (Option ℕ)
get_server_num s key = server_num_from s.server_key key s.parallel 0
