-- ===== src/Startup/Rpc/Race/Ends.antt =====
-- How `Start` ends when its servers fail, in any order of the steps of the goroutines in
-- pkg/common/startrpc/start.go.
use openim_project_template.Base.{
  ◌+◌, ◌≡◌, refl, sym, ap, subst, ◌∙◌, ◌⊎◌, inl, inr, Bool, true, false, Option, String, ◌↔◌,
  Bool-cases, arith,
}
use openim_project_template.Errors.{Error, new}
use openim_project_template.Startup.{Log, of_error}
use openim_project_template.Startup.Rpc.{await, metrics_failed, serve_failed}
use openim_project_template.Startup.Waiting.{answered, received, is_closed}
use openim_project_template.Startup.Rpc.Race.{
  Goroutine, off, Process, fails, puts, metrics_message, rpc_message, Step, metrics_moves,
  rpc_moves, signalled, receives, closes_channel, reads, begin, Reached, start, later, Failed,
  sends_closed, Panics,
}
use openim_project_template.Startup.Rpc.Race.Moves.{
  count_sent, Blames, Noted, Blames-swap, Noted-swap, Noted-Move, Move-told, Move-off, Blames-Move,
  Blames-noted, sends_closed-Failed, Failed-of_sent, received-closed,
}

module _ (at address : String) (on : Bool) where
  -- What holds of the process after any steps.
  record Consistent (s : Process) : Type 0 where
    told : count_sent s.metrics + count_sent s.rpc ≡ s.shared.in_channel + received s.main
    noted :
        Noted (metrics_message at address) (rpc_message at address) s.shared.net_err s.metrics s.rpc
    shut : s.shared.closed ≡ is_closed s.main
    quiet : on ≡ false → s.metrics ≡ off
    answers :
        (o : Option Error)
        → s.main ≡ answered o
        → Blames (metrics_message at address) (rpc_message at address) o s.metrics s.rpc

  Consistent-begin : (on' : Bool) → on' ≡ on → Consistent (begin at address on')
  Consistent-begin true same = record {
    told = refl;
    noted = inl (refl, refl);
    shut = refl;
    quiet = λ h. absurd (cc);
    answers = λ o h. absurd (ground arith);
  }
  Consistent-begin false same = record {
    told = refl;
    noted = inl (refl, refl);
    shut = refl;
    quiet = λ h. refl;
    answers = λ o h. absurd (ground arith);
  }

  Consistent-Step : {s t : Process} → Consistent s → Step at address s t → Consistent t
  Consistent-Step {s = s} i (metrics_moves move) = record {
    told = let (k, _) = Move-told _ move in omega (arith, k, i.told);
    noted = Noted-Move _ _ move i.noted;
    shut = let (_, k) = Move-told _ move in k ∙ i.shut;
    quiet = λ h. absurd (Move-off _ move (i.quiet h));
    answers = λ o h. Blames-Move move (i.answers o h);
  }
  Consistent-Step {s = s} i (rpc_moves move) = record {
    told = let (k, _) = Move-told _ move in omega (arith, k, i.told);
    noted = Noted-swap _ _ (Noted-Move _ _ move (Noted-swap _ _ i.noted));
    shut = let (_, k) = Move-told _ move in k ∙ i.shut;
    quiet = i.quiet;
    answers = λ o h. Blames-swap _ _ (Blames-Move move (Blames-swap _ _ (i.answers o h)));
  }
  Consistent-Step {s = s} i (signalled h) = record {
    told = i.told ∙ ap (λ m. s.shared.in_channel + received m) h;
    noted = i.noted;
    shut = i.shut ∙ ap is_closed h;
    quiet = i.quiet;
    answers = λ o h'. absurd (ground arith);
  }
  Consistent-Step {s = s} i (receives h more) = record {
    told = let k = ap received h in omega (arith, k, more, i.told);
    noted = i.noted;
    shut = i.shut ∙ ap is_closed h;
    quiet = i.quiet;
    answers = λ o h'. absurd (ground arith);
  }
  Consistent-Step {s = s} i (closes_channel h) = record {
    told = i.told ∙ ap (λ m. s.shared.in_channel + received m) h;
    noted = i.noted;
    shut = refl;
    quiet = i.quiet;
    answers = λ o h'. absurd (ground arith);
  }
  Consistent-Step {s = s} i (reads h) = record {
    told = i.told ∙ ap (λ m. s.shared.in_channel + received m) h;
    noted = i.noted;
    shut = i.shut ∙ ap is_closed h;
    quiet = i.quiet;
    answers = λ o same.
        let k = ap received h in
        let e : s.shared.net_err ≡ o = cc in
        subst (λ z. Blames (metrics_message at address) (rpc_message at address) z s.metrics s.rpc)
          e (Blames-noted i.noted (λ none_sent. absurd (omega (arith, k, i.told, none_sent))));
  }

  Reached-Consistent : {s : Process} → Reached at address on s → Consistent s
  Reached-Consistent start = Consistent-begin on refl
  Reached-Consistent (later r step) = Consistent-Step (Reached-Consistent r) step

  -- Whatever the order of the steps of the two goroutines and of Start, if Start answers because
  -- of a failure, its answer is the one that it has for the failure of one server alone, of a
  -- server that has failed. It is never nil, also if the other server fails in between.
  pub Reached-answered :
      {s : Process} {o : Option Error} (log : Log)
      → Reached at address on s
      → s.main ≡ answered o
      → (e : Error) × ((Failed s.metrics e
            × (of_error o ≡ (await on address (metrics_failed e at) log).0))
          ⊎ (Failed s.rpc e × (of_error o ≡ (await on address (serve_failed e) log).0)))
  Reached-answered log r h =
      let (e, blamed) = (Reached-Consistent r).answers _ h in
      elim blamed [
        | inl (o, failed) ↦ (e, inl (failed, ap of_error o))
        | inr (o, failed) ↦ (e, inr (failed, ap of_error o))
      ]

  Panics-Failed :
      {s : Process}
      → Reached at address on s
      → Panics s
      → ((e : Error) × Failed s.metrics e) × ((e : Error) × Failed s.rpc e)
  Panics-Failed {s = s} r (inl h) =
      let i = Reached-Consistent r in
      let (shut, fresh, failed) = sends_closed-Failed s.shared s.metrics h in
      let one = received-closed s.main (sym i.shut ∙ shut) in
      (failed, Failed-of_sent s.rpc (λ e. absurd (omega (arith, i.told, fresh, one, e))))
  Panics-Failed {s = s} r (inr h) =
      let i = Reached-Consistent r in
      let (shut, fresh, failed) = sends_closed-Failed s.shared s.rpc h in
      let one = received-closed s.main (sym i.shut ∙ shut) in
      (Failed-of_sent s.metrics (λ e. absurd (omega (arith, i.told, fresh, one, e))), failed)

  Failed-on : {g : Goroutine} {e : Error} → (on ≡ false → g ≡ off) → Failed g e → on ≡ true
  Failed-on {e = e} quiet failed = elim (Bool-cases on) [
    | inl h ↦ h
    | inr h ↦ elim (subst (λ g. Failed g e) (quiet h) failed) [ ]
  ]

  -- The gRPC server fails, `Start` closes the channel, and the server of the metrics fails.
  Reached-Panics_late : (e : Error) → (s : Process) × Reached at address true s × Panics s
  unfolding sends_closed
  Reached-Panics_late e = (
    _,
    later
        (later
          (later
            (later (later start (rpc_moves (fails {e = e}))) (rpc_moves (puts refl (omega arith))))
            (receives {n = 0} refl refl))
          (closes_channel refl))
        (metrics_moves (fails {e = e})),
    inl refl,
  )

  -- Some order of the steps of the two goroutines and of Start leads to a send on the closed
  -- channel exactly if there is a server of the metrics beside the gRPC server.
  pub Reached-Panics_iff : ((s : Process) × Reached at address on s × Panics s) ↔ (on ≡ true)
  Reached-Panics_iff = (
    λ (s, r, p).
        let ((e, failed), _) = Panics-Failed r p in Failed-on (Reached-Consistent r).quiet failed,
    λ h.
        subst (λ b. (s : Process) × Reached at address b s × Panics s) (sym h)
          (Reached-Panics_late (new "server stopped")),
  )
