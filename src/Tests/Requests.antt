-- ===== src/Tests/Requests.antt =====
-- Request lines and the queue of requests at concrete inputs.
use why.Base.{◌≡◌, refl, List, [], ◌∷◌, ◌++◌, none, some, arith, ℤ, pos, Outcome, ok, map, filter}
use why.Text.{Str, codes, c_string, str_eq}
use why.Queue.{Queue}
use why.Queue.Refine.{Holds}
use why.Request.{Request, req_interrupt}
use why.Request.Parse.{parse_request}
use why.Request.Fields.{AreFields, meaning}
use why.Request.Meaning.{parse_request-meaning}
use why.Request.Pending.{remove_from_queue, remove_from_queue-Holds, stays, each}

abbrev line : List Str
line = codes "run" ∷ codes "7" ∷ codes "10" ∷ codes "1000" ∷ codes "z3" ∷ codes "-smt2" ∷ []

line-AreFields : AreFields line
line-AreFields = search (refl, tt) depth 40

parse_request-meaning_example :
    parse_request (codes "run;7;10;1000;z3;-smt2") (pos 5) 2 ≡ meaning (map c_string line) (pos 5) 2
parse_request-meaning_example =
    parse_request-meaning (codes "run")
      (codes "7" ∷ codes "10" ∷ codes "1000" ∷ codes "z3" ∷ codes "-smt2" ∷ []) (pos 5) 2
      line-AreFields

abbrev waiting : ℤ → Str → Request
waiting key id = record { key = key; id = id; body = req_interrupt }

abbrev requests : List Request
requests =
    waiting (pos 5) (codes "a") ∷ waiting (pos 6) (codes "a") ∷ waiting (pos 5) (codes "b") ∷ []

-- The requests in a ring that starts in the middle.
abbrev pending : Queue Request
pending = record {
  cells =
      some (waiting (pos 5) (codes "b"))
      ∷ none
      ∷ some (waiting (pos 5) (codes "a"))
      ∷ some (waiting (pos 6) (codes "a"))
      ∷ [];
  pointer = 2;
  len = 3;
  capacity = 4;
}

pending-Holds : Holds pending requests
pending-Holds = record { valid = omega arith; view = refl }

-- The callback collects the ids.
abbrev collect : List Str → Request → Outcome (List Str)
collect ids r = ok (ids ++ (r.id ∷ []))

remove_from_queue-Holds_example :
    (queue' : Queue Request) × (remove_from_queue collect pending (pos 5) (some (codes "a")) []
      ≡ ok (queue', codes "a" ∷ []))
    × Holds queue' (filter (stays (pos 5) (some (codes "a"))) requests)
remove_from_queue-Holds_example =
    remove_from_queue-Holds collect pending (pos 5) (some (codes "a")) [] (codes "a" ∷ []) requests
      (omega arith) pending-Holds (unfold each stays str_eq in refl)
