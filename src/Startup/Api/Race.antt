-- ===== src/Startup/Api/Race.antt =====
-- The two goroutines of `Start` in internal/api/init.go and its wait for them, over netErr, the
-- channel netDone and the variable err, which both of them assign, as steps in any order. A server
-- answers ErrServerClosed only behind Shutdown, so behind a signal, where these steps stop.
pub mod Moves
pub mod Ends
use openim_project_template.Base.{
  ℕ, ◌+◌, ◌<◌, ◌<>◌, ◌≡◌, Bool, true, false, Option, none, some, String, if◌then◌else◌,
}
use openim_project_template.Errors.{Error, wrap_msg}
use openim_project_template.Startup.Waiting.{Main, waits, stops, closes, returns, answered}

-- `err`, `netErr` and `netDone`.
pub record Vars : Type 0 where
  pub last_err : Option Error
  pub net_err : Option Error
  pub in_channel : ℕ
  pub closed : Bool

-- Where a goroutine is. Once its server has failed with the error it tests err, then it sends.
pub data Worker : Type 0 where
  off serves : Worker
  tests sends sent : Error → Worker

pub record State : Type 0 where
  pub vars : Vars
  pub metrics : Worker
  pub api : Worker
  pub main : Main

-- The steps of a goroutine, which wraps what err is by then. The channel has room for one.
pub data Move (message : Error → Error) (c : Vars) : Worker → Vars → Worker → Type 0 where
  fails : {e : Error} → Move message c serves (record c { last_err = some e }) (tests e)
  wraps :
      {e x : Error}
      → c.last_err ≡ some x
      → Move message c (tests e) (record c { net_err = some (message x) }) (sends e)
  puts :
      {e : Error}
      → c.closed ≡ false
      → c.in_channel < 1
      → Move message c (sends e) (record c { in_channel = c.in_channel + 1 }) (sent e)

module _ (port address : String) where
  abbrev pub metrics_message : Error → Error
  metrics_message e = wrap_msg e ("prometheus start err: " <> port)

  abbrev pub api_message : Error → Error
  api_message e = wrap_msg e ("api start err: " <> address)

  pub data Step (s : State) : State → Type 0 where
    metrics_moves :
        {c : Vars} {g : Worker}
        → Move metrics_message s.vars s.metrics c g
        → Step s (record s { vars = c; metrics = g })
    api_moves :
        {c : Vars} {g : Worker}
        → Move api_message s.vars s.api c g
        → Step s (record s { vars = c; api = g })
    signalled : s.main ≡ waits → Step s (record s { main = stops })
    receives :
        {n : ℕ}
        → s.main ≡ waits
        → s.vars.in_channel ≡ n + 1
        → Step s (record s { vars = record s.vars { in_channel = n }; main = closes })
    closes_channel :
        s.main ≡ closes
        → Step s (record s { vars = record s.vars { closed = true }; main = returns })
    reads : s.main ≡ returns → Step s (record s { main = answered s.vars.net_err })

  abbrev pub set_off : Bool → State
  set_off on = record {
    vars = record { last_err = none; net_err = none; in_channel = 0; closed = false };
    metrics = if on then serves else off;
    api = serves;
    main = waits;
  }

  pub data Reached (on : Bool) : State → Type 0 where
    start : Reached on (set_off on)
    later : {s t : State} → Reached on s → Step s t → Reached on t

-- The server of the goroutine has failed with the error.
pub data Failed : Worker → Error → Type 0 where
  before_test : {e : Error} → Failed (tests e) e
  before_send : {e : Error} → Failed (sends e) e
  behind_send : {e : Error} → Failed (sent e) e
