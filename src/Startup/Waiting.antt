-- ===== src/Startup/Waiting.antt =====
-- Where `Start` of pkg/common/startrpc/start.go or internal/api/init.go is, from its wait on.
use openim_project_template.Base.{ℕ, Bool, true, false, Option}
use openim_project_template.Errors.{Error}

-- In its `select`, behind a signal, before or behind `close(netDone)`, or at the answer, which is
-- `netErr`.
pub data Main : Type 0 where
  waits stops closes returns : Main
  answered : Option Error → Main

-- How often `Start` has received.
abbrev pub received : Main → ℕ
received waits = 0
received stops = 0
received closes = 1
received returns = 1
received (answered o) = 1

-- Whether it has closed the channel.
abbrev pub is_closed : Main → Bool
is_closed waits = false
is_closed stops = false
is_closed closes = false
is_closed returns = true
is_closed (answered o) = true
