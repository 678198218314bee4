-- ===== src/Request/Parse.antt =====
-- `parse_request` and its helpers. A line is the list of its bytes; a returned `NULL` is `none`.
-- The global `parallel`, which a request may set, is an argument and a result.
use why.Base.{
  ℕ, zero, suc, ◌+◌, ◌-◌, ◌^◌, Bool, true, false, List, [], ◌∷◌, Option, none, some, leb, ◌==◌,
  length, take, drop, if◌then◌else◌, ℤ, pos, negsuc, Outcome, ok, ◌>>=◌,
}
use why.Text.{Str, codes, c_string, strncmp_eq, atoi}
use why.Request.{Request, Run, req_run, req_interrupt}

abbrev pub semicolon : ℕ
semicolon = b';'

unfoldable pub count_from : ℕ → Str → ℕ
count_from cnt [] = cnt
count_from cnt (c ∷ cs) = count_from (if c == semicolon then cnt + 1 else cnt) cs

unfoldable pub count_semicolons : Str → ℕ
unfolding count_from
count_semicolons s = count_from 0 s

-- The index at which the loop of `copy_up_to_semicolon` stops.
unfoldable pub stop_index : Str → ℕ → ℕ
stop_index [] i = i
stop_index (c ∷ cs) i = let next = stop_index cs (i + 1) in if c == semicolon then i else next

-- The copied string, and the position behind the semicolon (0 if there is none).
unfoldable pub copy_up_to_semicolon : Str → ℕ → Str × ℕ
unfolding stop_index
copy_up_to_semicolon s begin =
    let i = stop_index (drop begin s) begin in
    (c_string (take (i - begin) (drop begin s)), if i == length s then 0 else i + 1)

abbrev pub Parsed : Type 0
Parsed = Outcome (ℕ × Option Request)

-- `if (parallel_arg >= 1) parallel = parallel_arg;`
abbrev pub set_parallel : ℕ → ℤ → ℕ
set_parallel parallel (pos zero) = parallel
set_parallel parallel (pos (suc n)) = suc n
set_parallel parallel (negsuc n) = parallel

-- The conversion of an `int` to `unsigned int`.
abbrev pub to_unsigned : ℤ → ℕ
to_unsigned (pos n) = n
to_unsigned (negsuc n) = 2 ^ 32 - 1 - n

unfoldable pub parse_command : Str → ℤ → ℕ → Parsed
parse_command s key parallel =
    let (tmp, p) = copy_up_to_semicolon s 0 in
    let (arg, q) = copy_up_to_semicolon s p in
    if strncmp_eq tmp (codes "parallel") p
    then (do parallel_arg ← atoi arg; ok (set_parallel parallel parallel_arg, none))
    else if strncmp_eq tmp (codes "interrupt") p
    then ok (parallel, some (record { key = key; id = arg; body = req_interrupt }))
    else ok (parallel, none)

unfoldable pub copy_args : Str → ℕ → ℕ → List Str
copy_args s p zero = []
copy_args s p (suc n) = let (arg, q) = copy_up_to_semicolon s p in arg ∷ copy_args s q n

unfoldable pub parse_run : Str → ℤ → ℕ → ℕ → Bool → ℕ → Parsed
unfolding copy_args
parse_run s key parallel numargs runstdin p₀ = do
  let a = copy_up_to_semicolon s p₀
  let b = copy_up_to_semicolon s a.1
  timeout ← atoi b.0
  let c = copy_up_to_semicolon s b.1
  memlimit ← atoi c.0
  let d = copy_up_to_semicolon s c.1
  let run : Run = record {
    timeout = timeout;
    memlimit = to_unsigned memlimit;
    usestdin = runstdin;
    cmd = d.0;
    args = copy_args s d.1 numargs;
  }
  ok (parallel, some (record { key = key; id = a.0; body = req_run run }))

unfoldable pub parse_long : Str → ℤ → ℕ → ℕ → Parsed
unfolding parse_run
parse_long s key parallel numargs =
    let (tmp, p) = copy_up_to_semicolon s 0 in
    if strncmp_eq tmp (codes "run") p
    then parse_run s key parallel numargs false p
    else if strncmp_eq tmp (codes "runstdin") p
    then parse_run s key parallel numargs true p
    else ok (parallel, none)

-- The number of semicolons decides.
unfoldable pub dispatch : Str → ℤ → ℕ → ℕ → Parsed
dispatch s key parallel semic =
    if semic == 0
    then ok (parallel, none)
    else if semic == 1
    then parse_command s key parallel
    else if leb 4 semic
    then parse_long s key parallel (semic - 4)
    else ok (parallel, none)

unfoldable pub parse_request : Str → ℤ → ℕ → Parsed
parse_request s key parallel = dispatch s key parallel (count_semicolons s)
