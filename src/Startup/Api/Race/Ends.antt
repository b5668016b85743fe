-- ===== src/Startup/Api/Race/Ends.antt =====
-- What `Start` of internal/api/init.go answers when its servers fail, in any order of the steps of
-- its goroutines.
use openim_project_template.Base.{
  ◌+◌, ◌≡◌, refl, sym, ap, subst, ◌∙◌, inl, inr, Bool, true, false, Option, some, String, ◌↔◌,
  Bool-cases, arith,
}
use openim_project_template.Errors.{Error}
use openim_project_template.Startup.Waiting.{received, returns, answered}
use openim_project_template.Startup.Api.Race.{
  Worker, off, tests, sent, State, fails, wraps, puts, metrics_message, api_message, Step,
  metrics_moves, api_moves, signalled, receives, closes_channel, reads, set_off, Reached, start,
  later, Failed, behind_send,
}
use openim_project_template.Startup.Api.Race.Moves.{
  count_sent, Blames, Noted, Blames-Move, Noted-Move, Blames-swap, Noted-swap, Move-told, Move-off,
  count_sent-zero,
}

module _ (port address : String) (on : Bool) where
  abbrev pub m : Error → Error
  m = metrics_message port address

  abbrev pub n : Error → Error
  n = api_message port address

  -- What holds after any steps.
  record Consistent (s : State) : Type 0 where
    told : count_sent s.metrics + count_sent s.api ≡ s.vars.in_channel + received s.main
    keeps : Noted m n s.vars s.metrics s.api
    quiet : on ≡ false → s.metrics ≡ off
    answers : (o : Option Error) → s.main ≡ answered o → Blames m n o s.metrics s.api

  Consistent-set_off : (on' : Bool) → on' ≡ on → Consistent (set_off port address on')
  Consistent-set_off true same = record {
    told = refl;
    keeps = record { known = λ e h. absurd (ground arith); noted = inl (refl, refl) };
    quiet = λ h. absurd (cc);
    answers = λ o h. absurd (ground arith);
  }
  Consistent-set_off false same = record {
    told = refl;
    keeps = record { known = λ e h. absurd (ground arith); noted = inl (refl, refl) };
    quiet = λ h. refl;
    answers = λ o h. absurd (ground arith);
  }

  Blames-read :
      {s : State} → Consistent s → s.main ≡ returns → Blames m n s.vars.net_err s.metrics s.api
  Blames-read {s = s} i h = elim i.keeps.noted [
    | inl (a, b) ↦
        absurd (
          omega
            (arith, ap received h, i.told, count_sent-zero s.metrics a, count_sent-zero s.api b))
    | inr b ↦ b
  ]

  Consistent-Step : {s t : State} → Consistent s → Step port address s t → Consistent t
  Consistent-Step i (metrics_moves move) = record {
    told = omega (arith, Move-told _ n move, i.told);
    keeps = Noted-Move _ _ move i.keeps;
    quiet = λ h. absurd (Move-off _ n move (i.quiet h));
    answers = λ o h. Blames-Move _ _ move (i.answers o h);
  }
  Consistent-Step i (api_moves move) = record {
    told = omega (arith, Move-told _ m move, i.told);
    keeps = Noted-swap _ _ (Noted-Move _ _ move (Noted-swap _ _ i.keeps));
    quiet = i.quiet;
    answers = λ o h. Blames-swap n m (Blames-Move _ _ move (Blames-swap m n (i.answers o h)));
  }
  Consistent-Step {s = s} i (signalled h) = record {
    told = i.told ∙ ap (λ k. s.vars.in_channel + received k) h;
    keeps = i.keeps;
    quiet = i.quiet;
    answers = λ o h'. absurd (ground arith);
  }
  Consistent-Step i (receives h more) = record {
    told = omega (arith, ap received h, more, i.told);
    keeps = record { known = i.keeps.known; noted = i.keeps.noted };
    quiet = i.quiet;
    answers = λ o h'. absurd (ground arith);
  }
  Consistent-Step {s = s} i (closes_channel h) = record {
    told = i.told ∙ ap (λ k. s.vars.in_channel + received k) h;
    keeps = record { known = i.keeps.known; noted = i.keeps.noted };
    quiet = i.quiet;
    answers = λ o h'. absurd (ground arith);
  }
  Consistent-Step {s = s} i (reads h) = record {
    told = i.told ∙ ap (λ k. s.vars.in_channel + received k) h;
    keeps = i.keeps;
    quiet = i.quiet;
    answers = λ o same.
        let e : s.vars.net_err ≡ o = cc in
        subst (λ z. Blames m n z s.metrics s.api) e (Blames-read i h);
  }

  Reached-Consistent : {s : State} → Reached port address on s → Consistent s
  Reached-Consistent start = Consistent-set_off on refl
  Reached-Consistent (later r step) = Consistent-Step (Reached-Consistent r) step

  Failed-on : {g : Worker} {e : Error} → (on ≡ false → g ≡ off) → Failed g e → on ≡ true
  Failed-on {e = e} quiet failed = elim (Bool-cases on) [
    | inl h ↦ h
    | inr h ↦ elim (subst (λ g. Failed g e) (quiet h) failed) [ ]
  ]

  -- `Start` answers a message of one of its servers, around an error of a server that has failed.
  pub Reached-reported :
      {s : State} {o : Option Error}
      → Reached port address on s
      → s.main ≡ answered o
      → Blames m n o s.metrics s.api
  Reached-reported r h = (Reached-Consistent r).answers _ h

  -- The server of the metrics fails, that of the API fails before the error is tested, and `Start`
  -- answers.
  Reached-mixed :
      (e f : Error)
      → (s : State) × Reached port address true s
        × (s.metrics ≡ sent e)
        × (s.api ≡ tests f)
        × (s.main ≡ answered (some (metrics_message port address f)))
  Reached-mixed e f = (
    _,
    later
        (later
          (later
            (later
              (later
                (later (later start (metrics_moves (fails {e = e}))) (api_moves (fails {e = f})))
                (metrics_moves (wraps {x = f} refl)))
              (metrics_moves (puts refl (omega arith))))
            (receives {n = 0} refl refl))
          (closes_channel refl))
        (reads refl),
    refl,
    refl,
    refl,
  )

  -- For any errors e of the server of the metrics and f of that of the API, some order of the
  -- steps of the two goroutines and of Start leads to the answer that the metrics failed with f
  -- exactly if the metrics are enabled: both goroutines assign the variable err, and one of them
  -- tests it after the other has.
  pub Reached-metrics_message_iff :
      (e f : Error)
      → ((s : State) × Reached port address on s
          × (s.metrics ≡ sent e)
          × (s.api ≡ tests f)
          × (s.main ≡ answered (some (metrics_message port address f))))
        ↔ (on ≡ true)
  Reached-metrics_message_iff e f = (
    λ (s, r, h, _, _).
        Failed-on (Reached-Consistent r).quiet (subst (λ g. Failed g e) (sym h) behind_send),
    λ h.
        subst
          (λ b.
            (s : State) × Reached port address b s
            × (s.metrics ≡ sent e)
            × (s.api ≡ tests f)
            × (s.main ≡ answered (some (metrics_message port address f))))
          (sym h) (Reached-mixed e f),
  )
