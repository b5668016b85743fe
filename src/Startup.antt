-- ===== src/Startup.antt =====
-- The start of the two server processes. A start is an action on the log of its effects, in order;
-- what `defer` puts off runs when the function ends, also on an error or a panic, last first.
pub mod Scopes
pub mod Steps
pub mod Waiting
pub mod Registered
pub mod Rpc
pub mod Api
use openim_project_template.Base.{
  ℕ, String, Bool, List, [], ◌∷◌, ◌++◌, Option, none, some, Res, ok, err, Act, ◌>>◌, ◌>>=◌,
}
use openim_project_template.Errors.{Error}

-- What a start opens and has to close: the listener, the client of the discovery and the gRPC server.
pub data Resource : Type 0 where
  listener client server : Resource

pub data Effect : Type 0 where
  -- a resource that was opened, and one that a deferred call closes
  acquired released : Resource → Effect
  -- the call of the function that registers the service's handlers
  called_rpc_fn : Effect
  -- a registration at the discovery: name, address and port
  registered : String → String → ℕ → Effect
  -- the server at an address begins to serve
  serving : String → Effect
  -- the server for the metrics at a port begins to serve
  serving_metrics : ℕ → Effect
  -- `program.SIGTERMExit()`, and the calls that stop the two servers
  sigterm_exit stopped_server shut_down : Effect

abbrev pub Log : Type 0
Log = List Effect

-- `defer`, around the rest of the function
unfoldable pub defer : {A : Type 0} → Effect → Act Log A → Act Log A
defer e m log = ((m log).0, (m log).1 ++ e ∷ [])

unfoldable pub emit : Effect → Act Log (Unit {0})
emit e log = (ok tt, log ++ e ∷ [])

-- A resource that is opened, with its deferred closing around the rest.
unfoldable pub scoped : {A : Type 0} → Resource → Act Log A → Act Log A
unfolding defer emit
scoped r m = emit (acquired r) >> defer (released r) m

abbrev pub of_error : Option Error → Res (Unit {0})
of_error none = ok tt
of_error (some e) = err e

-- A call that answers an error or nil.
abbrev pub try : Option Error → Act Log (Unit {0})
try o log = (of_error o, log)
