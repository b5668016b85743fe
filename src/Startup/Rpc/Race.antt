-- ===== src/Startup/Rpc/Race.antt =====
-- The two goroutines of `Start` in pkg/common/startrpc/start.go and its wait for them, over netErr
-- and the channel netDone, as steps in any order. Go makes a send on a closed channel panic.
pub mod Moves
pub mod Ends
use openim_project_template.Base.{
  ℕ, ◌+◌, ◌<◌, ◌≡◌, ◌⊎◌, Bool, true, false, Option, none, some, String, [], ◌∷◌, if◌then◌else◌,
}
use openim_project_template.Errors.{Error, wrap_kv}
use openim_project_template.Startup.Waiting.{Main, waits, stops, closes, returns, answered}

-- `netErr` and `netDone`.
pub record Shared : Type 0 where
  pub net_err : Option Error
  pub in_channel : ℕ
  pub closed : Bool

-- Where a goroutine is. It sends after its server has failed with the error, and `off` is one that
-- has ended without an error or has nothing to serve.
pub data Goroutine : Type 0 where
  off serves : Goroutine
  sends sent : Error → Goroutine

pub record Process : Type 0 where
  pub shared : Shared
  pub metrics : Goroutine
  pub rpc : Goroutine
  pub main : Main

-- The steps of a goroutine, which wraps the error of its server. The channel has room for two.
pub data Move (message : Error → Error) (c : Shared) : Goroutine → Shared → Goroutine → Type 0 where
  quits : Move message c serves c off
  fails : {e : Error} → Move message c serves (record c { net_err = some (message e) }) (sends e)
  puts :
      {e : Error}
      → c.closed ≡ false
      → c.in_channel < 2
      → Move message c (sends e) (record c { in_channel = c.in_channel + 1 }) (sent e)

module _ (at address : String) where
  abbrev pub metrics_message : Error → Error
  metrics_message e = wrap_kv e "prometheus start err" ((at, "") ∷ [])

  abbrev pub rpc_message : Error → Error
  rpc_message e = wrap_kv e "rpc start err: " ((address, "") ∷ [])

  pub data Step (s : Process) : Process → Type 0 where
    metrics_moves :
        {c : Shared} {g : Goroutine}
        → Move metrics_message s.shared s.metrics c g
        → Step s (record s { shared = c; metrics = g })
    rpc_moves :
        {c : Shared} {g : Goroutine}
        → Move rpc_message s.shared s.rpc c g
        → Step s (record s { shared = c; rpc = g })
    signalled : s.main ≡ waits → Step s (record s { main = stops })
    receives :
        {n : ℕ}
        → s.main ≡ waits
        → s.shared.in_channel ≡ n + 1
        → Step s (record s { shared = record s.shared { in_channel = n }; main = closes })
    closes_channel :
        s.main ≡ closes
        → Step s (record s { shared = record s.shared { closed = true }; main = returns })
    reads : s.main ≡ returns → Step s (record s { main = answered s.shared.net_err })

  abbrev pub begin : Bool → Process
  begin on = record {
    shared = record { net_err = none; in_channel = 0; closed = false };
    metrics = if on then serves else off;
    rpc = serves;
    main = waits;
  }

  pub data Reached (on : Bool) : Process → Type 0 where
    start : Reached on (begin on)
    later : {s t : Process} → Reached on s → Step s t → Reached on t

-- The server of the goroutine has failed with the error.
pub data Failed : Goroutine → Error → Type 0 where
  before_send : {e : Error} → Failed (sends e) e
  behind_send : {e : Error} → Failed (sent e) e

-- The next step of a goroutine is a send on the closed channel.
unfoldable pub sends_closed : Shared → Goroutine → Bool
sends_closed c (sends e) = c.closed
sends_closed c off = false
sends_closed c serves = false
sends_closed c (sent e) = false

abbrev pub Panics : Process → Type 0
Panics s = (sends_closed s.shared s.metrics ≡ true) ⊎ (sends_closed s.shared s.rpc ≡ true)
