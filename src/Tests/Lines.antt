-- ===== src/Tests/Lines.antt =====
-- The lines in a client's read buffer at a concrete state.
use why.Base.{◌<◌, ◌^◌, ℤ, false, ◌==ℤ◌, ◌≡◌, refl, [], ◌∷◌, some, none, arith, pos, ◌>>=◌}
use why.ReadBuf.{ReadBuf}
use why.ReadBuf.Refine.{Holds}
use why.Server.{Server, Buffers}
use why.Server.Clients.{read_on_client}
use why.Server.Received.{read_on_client-lines}
use why.Server.Lines.{handle_msg}
use why.Server.Framing.{split_lines, each_line, take_handled, handle_msg-each_line}
use why.Tests.Jobs.{os, state}

-- Two lines, the second one not complete.
abbrev one_and_a_half : ReadBuf
one_and_a_half = record {
  bytes = some 97 ∷ some 98 ∷ some 10 ∷ some 99 ∷ none ∷ [];
  len = 4;
  capacity = 5;
}

abbrev reading : Server
reading = record state { buffers = λ fd. record (state.buffers fd) { readbuf = one_and_a_half } }

handle_msg-each_line_example :
    handle_msg os reading (pos 5)
    ≡ (do s' ← each_line os reading (pos 5) ((97 ∷ 98 ∷ []) ∷ []); take_handled (pos 5) 3 s')
unfolding split_lines
handle_msg-each_line_example =
    handle_msg-each_line os reading (pos 5) (97 ∷ 98 ∷ 10 ∷ 99 ∷ []) (omega arith) (record {
      count = refl;
      fits = omega arith;
      size = refl;
      bytes = (refl, (refl, (refl, (refl, tt))));
    })

-- Half a line is held, and the rest of it arrives with the beginning of the next one.
abbrev half : ReadBuf
half = record { bytes = some 97 ∷ some 98 ∷ none ∷ []; len = 2; capacity = 3 }

abbrev waiting : Server
waiting = record state { buffers = λ fd. record (state.buffers fd) { readbuf = half } }

read_on_client-lines_example :
    (bufs : (ℤ → Buffers)) × Holds (bufs (pos 5)).readbuf (97 ∷ 98 ∷ 99 ∷ 10 ∷ 100 ∷ [])
    × ((bufs (pos 5)).readbuf.capacity < 2 ^ 60)
    × ((bufs (pos 5)).writebuf ≡ (state.buffers (pos 5)).writebuf)
    × ((k : ℤ) → (pos 5 ==ℤ k) ≡ false → bufs k ≡ waiting.buffers k)
    × (read_on_client os waiting (pos 5) (some (99 ∷ 10 ∷ 100 ∷ [])) ≡ (do
      s' ← each_line os (record waiting { buffers = bufs }) (pos 5) ((97 ∷ 98 ∷ 99 ∷ []) ∷ [])
      take_handled (pos 5) 4 s'))
unfolding split_lines
read_on_client-lines_example =
    read_on_client-lines os waiting (pos 5) (97 ∷ 98 ∷ []) 99 (10 ∷ 100 ∷ []) (omega arith)
      (omega arith) (omega arith)
      (record { count = refl; fits = omega arith; size = refl; bytes = (refl, (refl, tt)) })
