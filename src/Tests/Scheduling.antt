-- ===== src/Tests/Scheduling.antt =====
-- The theorems on processes and messages at a concrete state.
use why.Poll.Clean.{IsCleaned, poll_list_clean-Holds}
use why.Base.{
  inr, minus_one, List, ◌≡◌, refl, false, true, [], ◌∷◌, ◌++◌, some, arith, ℤ, pos, ok, stop,
  undefined,
}
use why.Text.{Str, codes, strtol}
use why.ArrayList.Entries.{lookup, remove}
use why.Poll.{PollFd, PollList, poll_list_clean}
use why.Poll.Refine.{Holds as PollHolds}
use why.Server.{Server, Exec, forked}
use why.Request.{Request, Run, req_run}
use why.Server.Messages.{started_text}
use why.Server.Jobs.{Waited, signaled, run_request, schedule_from, schedule_new_jobs, handle_child}
use why.Server.Enough.{schedule_new_jobs-enough}
use why.Server.View.{IsGood, Told}
use why.Server.Started.{proc_of, outfile_of}
use why.Server.Asked.{IsAsked, run_request-IsAsked}
use why.Server.Schedule.{Scheduled, schedule_new_jobs-Scheduled}
use why.Server.Reaped.{fields, handle_child-tells, handle_child-unknown}
use why.Options.{parallel, socket, parse_options, take_options, take_option, check_options, to_int}
use why.Options.Laws.{IsJobs, parse_options-IsJobs}
use why.Tests.Jobs.{os, z3, jobs, client_5, clients, proc_100, procs, watched, state, state-IsGood}

schedule_new_jobs-Scheduled_example :
    (s' : Server) × (schedule_new_jobs os state ≡ ok s')
    × (s'.parallel ≡ 3)
    × Scheduled s' 3 clients procs jobs
schedule_new_jobs-Scheduled_example =
    schedule_new_jobs-Scheduled os (λ n. refl) state clients procs jobs
      (state-IsGood 2 (omega arith))

abbrev piped : Run
piped = record z3 { usestdin = true; args = codes "-in" ∷ codes "x.smt2" ∷ [] }

abbrev piped_job : Request
piped_job = record { key = pos 5; id = codes "d"; body = req_run piped }

run_request-IsAsked_example :
    (s' : Server) × (run_request os state piped_job ≡ ok s')
    × IsGood s' clients (procs ++ ((pos 200, proc_of os state piped_job) ∷ [])) jobs 1 1
    × (s'.parallel ≡ 3)
    × (s'.forks ≡ 1)
    × (x : Exec) × IsAsked piped (outfile_of os state) x
    × (s'.effects ≡ forked (pos 200) (ok x) ∷ [])
    × Told state.buffers s'.buffers (pos 5) (started_text (codes "d"))
run_request-IsAsked_example =
    run_request-IsAsked os state piped_job clients procs jobs 1 1 client_5
      (record { short_id = omega arith; run = piped; is_run = refl }) (unfold lookup in refl) refl
      (inr (omega arith)) (omega arith) (state-IsGood 2 (omega arith))

abbrev ended : ℤ → Waited
ended pid = record { pid = pid; status = signaled 9; cpu_time = codes "0.125000" }

handle_child-tells_example :
    (s' : Server) × (handle_child state (ended (pos 100)) ≡ ok s')
    × Told state.buffers s'.buffers (pos 5) (
        fields
          (codes "F" ∷ codes "a" ∷ codes "9" ∷ codes "0.125000" ∷ codes "1" ∷ codes "/tmp/x" ∷ []))
    × IsGood s' clients (remove (pos 100) procs) jobs 2 1
handle_child-tells_example =
    handle_child-tells state (ended (pos 100)) clients procs jobs 2 1 (state-IsGood 2 (omega arith))
      proc_100 (unfold lookup in refl) client_5 (unfold lookup in refl) (omega arith) (omega arith)
      (omega arith)

handle_child-unknown_example : handle_child state (ended (pos 102)) ≡ stop undefined
handle_child-unknown_example =
    handle_child-unknown state (ended (pos 102)) clients procs jobs 2 1
      (state-IsGood 2 (omega arith)) (unfold lookup in refl)

parse_options-IsJobs_example :
    IsJobs (pos 8) × (false ≡ false) × ((name : Str) × (some (codes "s") ≡ some name))
parse_options-IsJobs_example =
    parse_options-IsJobs (parallel (codes "8") ∷ socket (codes "s") ∷ []) false
      (record { jobs = pos 8; socketname = some (codes "s"); logs = false; single = false })
      (unfold parse_options take_options take_option check_options to_int strtol in refl)

-- The entry in the middle is marked.
abbrev closed_5 : PollFd
closed_5 = record watched { fd = minus_one }

abbrev watched_7 : PollFd
watched_7 = record watched { fd = pos 7 }

abbrev poll_3 : PollList
poll_3 = record {
  poll_list = some watched ∷ some closed_5 ∷ some watched_7 ∷ [];
  poll_num = 3;
  poll_len = 3;
}

poll_list_clean-Holds_example :
    (p' : PollList) × (es' : List PollFd) × (poll_list_clean poll_3 ≡ ok p')
    × PollHolds p' es'
    × IsCleaned (watched ∷ closed_5 ∷ watched_7 ∷ []) es'
poll_list_clean-Holds_example =
    poll_list_clean-Holds poll_3 (watched ∷ closed_5 ∷ watched_7 ∷ []) (record {
      count = refl;
      fits = omega arith;
      some_room = omega arith;
      small = omega arith;
      size = refl;
      listed = (refl, (refl, (refl, tt)));
    })

schedule_new_jobs-enough_example : schedule_from os 7 state ≡ schedule_new_jobs os state
schedule_new_jobs-enough_example =
    schedule_new_jobs-enough os jobs state 5 (record { valid = omega arith; view = refl })
