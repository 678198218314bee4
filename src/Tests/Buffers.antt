-- ===== src/Tests/Buffers.antt =====
-- The read and write buffers at concrete inputs.
use why.Base.{◌≡◌, refl, false, true, [], ◌∷◌, none, some, arith, stop, undefined}
use why.ReadBuf.{ReadBuf, have_taken}
use why.ReadBuf.Refine.{Holds, have_taken_overlap}
use why.WriteBuf.{WriteBuf}
use why.WriteBuf.Refine.{Sending, busy}

-- Three bytes in four cells.
abbrev half_line : ReadBuf
half_line = record { bytes = some 97 ∷ some 98 ∷ some 10 ∷ none ∷ []; len = 3; capacity = 4 }

half_line-Holds : Holds half_line (97 ∷ 98 ∷ 10 ∷ [])
half_line-Holds = record {
  count = refl;
  fits = omega arith;
  size = refl;
  bytes = (refl, (refl, (refl, tt)));
}

have_taken_overlap_example : have_taken half_line 1 ≡ stop undefined
have_taken_overlap_example =
    have_taken_overlap half_line 1 (97 ∷ 98 ∷ 10 ∷ []) (omega arith) half_line-Holds

-- A message of three bytes, one of them written, and another one in the queue.
abbrev pub two_messages : WriteBuf
two_messages = record {
  message = some (70 ∷ 71 ∷ 10 ∷ []);
  len = 3;
  pointer = 1;
  is_writing = false;
  writequeue = record {
    cells = some (83 ∷ 10 ∷ []) ∷ none ∷ [];
    pointer = 0;
    len = 1;
    capacity = 2;
  };
}

abbrev in_write : WriteBuf
in_write = record two_messages { is_writing = true }

pub two_messages-Sending : Sending two_messages ((71 ∷ 10 ∷ []) ∷ (83 ∷ 10 ∷ []) ∷ [])
two_messages-Sending =
    busy (70 ∷ 71 ∷ 10 ∷ []) ((83 ∷ 10 ∷ []) ∷ [])
      (record { message = refl; len = refl; pointer_in = omega arith })
      (record { valid = omega arith; view = refl }) (omega arith, tt) refl

in_write-Sending : Sending in_write ((71 ∷ 10 ∷ []) ∷ (83 ∷ 10 ∷ []) ∷ [])
in_write-Sending =
    busy (70 ∷ 71 ∷ 10 ∷ []) ((83 ∷ 10 ∷ []) ∷ [])
      (record { message = refl; len = refl; pointer_in = omega arith })
      (record { valid = omega arith; view = refl }) (omega arith, tt) refl
