-- ===== src/Server/Invariant/Ending.antt =====
-- What it means that code of the server ends well.
use why.Base.{
  ◌≡◌, ap, ◌∙◌, sym, ◌⊎◌, inl, inr, List, [], ◌∷◌, ◌++◌, append-nil, append_assoc, Option, none,
  some, Outcome, ok, stop, exits, ◌>>=◌,
}
use why.Request.{Request, Run, Body, req_run, req_interrupt}
use why.Server.{Server, System, Effect, Exec, forked, killed, closed}
use why.Server.Asked.{HasInput, child_plan-ok}
use why.Server.Started.{effect_of}

-- What each child does until `execvp` is defined.
abbrev pub AreDefined : List Effect → Type 0
AreDefined [] = Unit
AreDefined (forked pid plan ∷ es) = ((x : Exec) × (plan ≡ ok x)) × AreDefined es
AreDefined (killed pids ∷ es) = AreDefined es
AreDefined (closed fd ∷ es) = AreDefined es

AreDefined-append : (es fs : List Effect) → AreDefined es → AreDefined fs → AreDefined (es ++ fs)
AreDefined-append [] fs h k = k
AreDefined-append (forked pid plan ∷ es) fs h k = (h.0, AreDefined-append es fs h.1 k)
AreDefined-append (killed pids ∷ es) fs h k = AreDefined-append es fs h k
AreDefined-append (closed fd ∷ es) fs h k = AreDefined-append es fs h k

-- What the server has made the system do since the old state, children included, is defined.
abbrev pub Goes : Server → Server → Type 0
Goes old new = (es : List Effect) × (new.effects ≡ old.effects ++ es) × AreDefined es

-- The code returns, or `shutdown_with_msg` exits.
abbrev pub Ends : Server → Outcome Server → Type 0
Ends s o = ((s' : Server) × (o ≡ ok s') × Goes s s') ⊎ (o ≡ stop (exits 1))

pub Goes-nowhere : (s s' : Server) → s'.effects ≡ s.effects → Goes s s'
Goes-nowhere s s' e = ([], e ∙ sym (append-nil s.effects), tt)

pub Goes-on : (s t u : Server) → Goes s t → Goes t u → Goes s u
Goes-on s t u (es, e, h) (fs, f, k) =
    (es ++ fs, f ∙ ap (λ l. l ++ fs) e ∙ append_assoc s.effects es fs, AreDefined-append es fs h k)

-- Some code, and then other code that may depend on the state.
pub Ends-then :
    (s : Server) (o : Outcome Server) (next : Server → Outcome Server)
    → Ends s o
    → ((t : Server) → o ≡ ok t → Ends t (next t))
    → Ends s (o >>= next)
Ends-then s o next (inr stops) after = inr (rw stops)
Ends-then s o next (inl (t, ran, went)) after = then' (after t ran)
  where
    then' : Ends t (next t) → Ends s (o >>= next)
    then' (inr stops) = inr (rw ran stops)
    then' (inl (u, ran', went')) = inl (u, rw ran ran', Goes-on s t u went went')

-- With `usestdin` a request has an argument.
abbrev pub IsFedBody : Body → Type 0
IsFedBody (req_run run) = HasInput run
IsFedBody req_interrupt = Unit

abbrev pub AreFed : List Request → Type 0
AreFed [] = Unit
AreFed (r ∷ rs) = IsFedBody r.body × AreFed rs

abbrev pub IsFed : Option Request → Type 0
IsFed none = Unit
IsFed (some r) = IsFedBody r.body

pub effect_of-IsDefined :
    (os : System) (s : Server) (run : Run) → HasInput run → AreDefined (effect_of os s run ∷ [])
effect_of-IsDefined os s run fed = (child_plan-ok run _ fed, tt)
