-- ===== src/Windows/Reaped.antt =====
-- The events of a process.
use why.Base.{
  Bool, Bool-cases, inl, inr, ==_iff, ℕ, ◌+◌, ◌^◌, ◌≤◌, ◌<◌, ◌≡◌, refl, ◌∷◌, [], ◌++◌, List, Option,
  none, some, ◌==◌, false, true, ℤ, pos, length, ok,
}
use why.Text.{Str}
use why.ArrayList.{PList}
use why.ArrayList.Entries.{lookup, remove}
use why.ArrayList.Refine.{Holds, list_lookup-Holds, list_remove-Holds}
use why.Proc.{Proc}
use why.Server.Messages.{finished_text}
use why.Windows.{WindowsServer, System, Client}
use why.Windows.Keys.{socket, get_server_num, kind_of_ms_key, key_of_ms_key, process}
use why.Windows.Jobs.{
  new_process, unknown, JobEvent, Ended, is_timeout, child_ended, handle_child_event, key_number,
}
use why.WriteBuf.{WriteBuf}
use why.Windows.Pump.{Pumped, first_of, with_writebuf, send_msg_to_client-Pumped}
use why.Windows.Loop.{Event, handle_event}

nonzero : (ms : ℕ) → kind_of_ms_key ms ≡ process → (ms == 0) ≡ false
unfolding kind_of_ms_key
nonzero ms kind = elim (Bool-cases (ms == 0)) [
  | inl e ↦
      let none_left : ms ≡ 0 = (==_iff ms 0).0 e in
      let no : socket ≡ process = rw none_left at kind in absurd (cc)
  | inr e ↦ e
]

-- Does the event tell of the end of a process?
abbrev pub tells_end : JobEvent → Bool
tells_end new_process = false
tells_end unknown = false
tells_end event = true

handle_child_event-ends :
    (os : System) (s : WindowsServer) (key : ℕ) (p : Proc) (event : JobEvent) (e : Ended)
    → tells_end event ≡ true
    → handle_child_event os s key p event e ≡ child_ended os s key p e
unfolding handle_child_event
handle_child_event-ends os s key p new_process e ends = absurd (cc)
handle_child_event-ends os s key p unknown e ends = absurd (cc)
handle_child_event-ends os s key p event e ends = refl

-- The message that tells of the end of a process.
abbrev pub end_text : System → Proc → Ended → Str
end_text os p e = finished_text p.task_id e.exitcode e.cpu_time (is_timeout os e.exitcode) p.outfile

module _ (os : System) (s : WindowsServer) (e : Event) (cs : List (ℤ × Client))
    (ps : List (ℤ × Proc)) (p : Proc) (num : Option ℕ) where
  -- No event of a process whose client is gone changes the server's state, if its key is looked up
  -- among the pipes without failure. The end of the process is not noticed, so that it stays in the
  -- list of processes and in the number that `parallel` limits.
  pub handle_event-gone :
      Holds s.clients cs
      → Holds s.processes ps
      → kind_of_ms_key e.mskey ≡ process
      → get_server_num s (key_of_ms_key e.mskey) ≡ ok num
      → lookup (pos (key_of_ms_key e.mskey)) ps ≡ some p
      → lookup p.client_key cs ≡ none
      → handle_event os s e ≡ ok s
  unfolding handle_event
  handle_event-gone hc hp kind found known gone =
      rw
        (
          nonzero e.mskey kind,
          found,
          kind,
          list_lookup-Holds s.processes (pos (key_of_ms_key e.mskey)) ps hp,
          known,
          list_lookup-Holds s.clients p.client_key cs hc,
          gone,
        )
        refl

  -- An event that tells of the end of a process in the list takes it off the list, and puts the message
  -- of its end behind those on their way to its client, who is connected; it is written at once if
  -- there are none. The time must take at most twelve characters, there must be room for the message,
  -- and the key must be looked up among the pipes without failure.
  pub handle_event-tells :
      (c : Client) (ms : List Str)
      → let key = key_of_ms_key e.mskey in
        let client = key_number p.client_key in
        let text = end_text os p e.ended in
        Holds s.clients cs
        → Holds s.processes ps
        → kind_of_ms_key e.mskey ≡ process
        → tells_end e.job ≡ true
        → get_server_num s key ≡ ok num
        → lookup (pos key) ps ≡ some p
        → lookup p.client_key cs ≡ some c
        → length e.ended.cpu_time ≤ 12
        → length p.task_id + length p.outfile < 2 ^ 30
        → length ms < 2 ^ 30
        → Pumped (s.buffers client).writebuf ms
        → (l : PList Proc) × (w : WriteBuf) × (handle_event os s e
            ≡ ok (with_writebuf (record s { processes = l }) client w (first_of ms text)))
          × Holds l (remove (pos key) ps)
          × Pumped w (ms ++ (text ∷ []))
  unfolding handle_event child_ended
  handle_event-tells c ms hc hp kind ends found known connected time short few pumped =
      let (l, removed, hl) = list_remove-Holds s.processes (pos (key_of_ms_key e.mskey)) ps hp in
      let (w, sent, p') =
        send_msg_to_client-Pumped (record s { processes = l }) (key_number p.client_key) p.task_id
          e.ended.exitcode e.ended.cpu_time (is_timeout os e.ended.exitcode) p.outfile ms time short
          few pumped in
      (
        l,
        w,
        rw
            (
              nonzero e.mskey kind,
              found,
              kind,
              list_lookup-Holds s.processes (pos (key_of_ms_key e.mskey)) ps hp,
              known,
              list_lookup-Holds s.clients p.client_key cs hc,
              connected,
              handle_child_event-ends os s (key_of_ms_key e.mskey) p e.job e.ended ends,
              removed,
            )
            sent,
        hl,
        p',
      )
