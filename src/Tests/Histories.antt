-- ===== src/Tests/Histories.antt =====
-- Histories of the server at a concrete state.
use why.Base.{◌≡◌, refl, true, [], ◌∷◌, none, some, arith, ℤ, pos, Outcome, ok, stop}
use why.Poll.{only_pollin}
use why.Server.{Server}
use why.Server.Loop.{Special, entry, Answers, begin_round, handle_entry}
use why.Server.Framing.{split_lines}
use why.Server.Invariant.{IsPosix, Invariant, IsReceiving}
use why.Server.Invariant.Entries.{IsAllowed}
use why.Server.Invariant.Histories.{History, at_start, next, begins, handles, History-Invariant}
use why.Server.Room.{IsGood-weaken}
use why.ArrayList.{list_append, list_length, list_lookup, list_lookup_index}
use why.Base.Memory.{can_copy, load, memcpy, realloc, store}
use why.Poll.{lookup_from, poll_list_clean, poll_list_lookup, set_pollout}
use why.Queue.{queue_is_empty, queue_pop, queue_push}
use why.ReadBuf.{fill, have_read, have_taken, prepare_read}
use why.Request.Parse.{count_semicolons, dispatch, parse_request}
use why.Server.Clients.{read_on_client}
use why.Server.Jobs.{run_for_client, run_request, schedule_from, schedule_new_jobs, start_process}
use why.Server.Lines.{int_of, bytes_from, handle_line, handle_msg, lines_from, newline_index}
use why.Server.Loop.{poll_from}
use why.Server.Messages.{queue_write, send_started_msg_to_client}
use why.Server.Spawn.{child_plan, temp_file}
use why.WriteBuf.{has_write_data, push_write_data}
use why.Tests.Jobs.{os, clients, procs, jobs, state, state-IsGood}

abbrev pub special : Special
special = record { cpipe = pos 3; server_sock = pos 4 }

pub os-IsPosix : IsPosix os
os-IsPosix = record { temp_length = λ n. refl }

receiving : (k : ℤ) → IsReceiving state k 10
unfolding split_lines
receiving k = record {
  part = [];
  holds = record { count = refl; fits = omega arith; size = refl; bytes = tt };
  unread = refl;
  short = omega arith;
  low = omega arith;
}

abbrev state-Invariant : Invariant state 10
state-Invariant = record {
  clients = clients;
  procs = procs;
  queue = jobs;
  good =
      IsGood-weaken state clients procs jobs 26 26 12 26 (omega arith) (omega arith)
        (state-IsGood 26 (omega arith));
  named = (omega arith, (omega arith, tt));
  receiving = λ k c found. receiving k;
}

abbrev value : Outcome Server → Server
value (ok s) = s
value (stop why) = state

-- A round begins: the request of the client that is gone is dropped, and the other one is started.
abbrev begun : Outcome Server
begun = begin_round os special state (some (λ i. only_pollin))

round_begins : begun ≡ ok (value begun)
unfolding begin_round schedule_new_jobs schedule_from list_length queue_is_empty queue_pop load
    run_request list_lookup list_lookup_index run_for_client start_process list_append store
    send_started_msg_to_client queue_write push_write_data can_copy memcpy realloc lookup_from
    poll_list_clean poll_list_lookup set_pollout queue_push poll_from child_plan temp_file
    has_write_data
round_begins = refl

-- A line arrives from the client.
abbrev pub answers : Answers
answers = record {
  drained = true;
  waited = [];
  accepted = none;
  read = some (120 ∷ 10 ∷ []);
  written = none;
}

abbrev handled : Outcome Server
handled = handle_entry os special (value begun) 0 answers

line_handled : handled ≡ ok (value handled)
unfolding begin_round schedule_new_jobs schedule_from list_length queue_is_empty queue_pop load
    run_request list_lookup list_lookup_index run_for_client start_process list_append store
    send_started_msg_to_client queue_write push_write_data can_copy memcpy realloc lookup_from
    poll_list_clean poll_list_lookup set_pollout queue_push poll_from child_plan temp_file
    has_write_data handle_entry read_on_client fill prepare_read have_read handle_msg int_of
    bytes_from lines_from newline_index handle_line parse_request dispatch count_semicolons
    have_taken
line_handled = refl

line-IsAllowed : IsAllowed (value begun) answers
line-IsAllowed = record { few = omega arith; fresh = λ fd e. absurd (cc) }

history : History os special state 10 (value handled) (entry 1) 8
unfolding begin_round schedule_new_jobs schedule_from list_length queue_is_empty queue_pop load
    run_request list_lookup list_lookup_index run_for_client start_process list_append store
    send_started_msg_to_client queue_write push_write_data can_copy memcpy realloc lookup_from
    poll_list_clean poll_list_lookup set_pollout queue_push poll_from child_plan temp_file
    has_write_data
history =
    next (next at_start (begins (some (λ i. only_pollin)) round_begins))
      (handles answers refl line-IsAllowed line_handled)

History-Invariant_example : Invariant (value handled) 8
History-Invariant_example =
    History-Invariant os special state 10 os-IsPosix state-Invariant (value handled) (entry 1) 8
      history
