-- ===== src/Tests/Closing.antt =====
-- Clients that come and leave, at a concrete state.
use why.Base.{arith}
use why.Server.{Server}
use why.Server.View.{IsGood}
use why.Tests.Jobs.{clients, procs, jobs, state, state-IsGood}

abbrev good_state : IsGood state clients procs jobs 2 2
good_state = state-IsGood 2 (omega arith)
