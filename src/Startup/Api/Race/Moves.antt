-- ===== src/Startup/Api/Race/Moves.antt =====
-- What a step of one goroutine of `Start` in internal/api/init.go keeps.
use openim_project_template.Base.{
  ℕ, ◌+◌, ◌≡◌, refl, subst, ◌≢◌, ◌⊎◌, inl, inr, Bool, true, false, Option, some, arith,
}
use openim_project_template.Errors.{Error}
use openim_project_template.Startup.Api.Race.{
  Vars, Worker, off, serves, tests, sends, sent, Move, fails, wraps, puts, Failed, before_test,
  before_send, behind_send,
}

abbrev pub count_sent : Worker → ℕ
count_sent (sent e) = 1
count_sent off = 0
count_sent serves = 0
count_sent (tests e) = 0
count_sent (sends e) = 0

-- The goroutine has written netErr.
abbrev pub wrote : Worker → Bool
wrote (sends e) = true
wrote (sent e) = true
wrote off = false
wrote serves = false
wrote (tests e) = false

-- A server has failed with the error.
abbrev pub Origin : Worker → Worker → Error → Type 0
Origin g h e = Failed g e ⊎ Failed h e

-- The error is a message of one of the servers around an error that one of them has failed with.
abbrev pub Blames : (m n : Error → Error) → Option Error → Worker → Worker → Type 0
Blames m n o g h = (e : Error) × ((o ≡ some (m e)) ⊎ (o ≡ some (n e))) × Origin g h e

-- What holds of the variables.
pub record Noted (m n : Error → Error) (c : Vars) (g h : Worker) : Type 0 where
  pub known : (e : Error) → c.last_err ≡ some e → Origin g h e
  pub noted : ((wrote g ≡ false) × (wrote h ≡ false)) ⊎ Blames m n c.net_err g h

module _ (m n : Error → Error) where
  Failed-Move :
      {c c' : Vars} {g g' : Worker} {e : Error} → Move m c g c' g' → Failed g e → Failed g' e
  Failed-Move fails failed = elim failed [ ]
  Failed-Move (wraps _) before_test = before_send
  Failed-Move (puts _ _) before_send = behind_send

  Origin-Move :
      {c c' : Vars} {g g' h : Worker} {e : Error} → Move m c g c' g' → Origin g h e → Origin g' h e
  Origin-Move move (inl failed) = inl (Failed-Move move failed)
  Origin-Move move (inr failed) = inr failed

  pub Blames-Move :
      {c c' : Vars} {g g' h : Worker} {o : Option Error}
      → Move m c g c' g'
      → Blames m n o g h
      → Blames m n o g' h
  Blames-Move move (e, o, origin) = (e, o, Origin-Move move origin)

  known-Move :
      {c c' : Vars} {g g' h : Worker}
      → Move m c g c' g'
      → Noted m n c g h
      → (e : Error) → c'.last_err ≡ some e
      → Origin g' h e
  known-Move {h = h} (fails {e = x}) i e same =
      let k : x ≡ e = cc in subst (λ z. Failed (tests x) z ⊎ Failed h z) k (inl before_test)
  known-Move {c = c} (wraps set) i e same = Origin-Move {c = c} (wraps set) (i.known e same)
  known-Move {c = c} (puts usable room) i e same =
      Origin-Move {c = c} (puts usable room) (i.known e same)

  blamed-Move :
      {c c' : Vars} {g g' h : Worker}
      → Move m c g c' g'
      → Noted m n c g h
      → ((wrote g' ≡ false) × (wrote h ≡ false)) ⊎ Blames m n c'.net_err g' h
  blamed-Move {c = c} fails i = elim i.noted [
    | inl (_, b) ↦ inl (refl, b)
    | inr b ↦ inr (Blames-Move {c = c} fails b)
  ]
  blamed-Move {c = c} (wraps {x = x} same) i =
      inr (x, inl refl, Origin-Move {c = c} (wraps same) (i.known x same))
  blamed-Move {c = c} (puts usable room) i = elim i.noted [
    | inl (a, _) ↦ absurd (ground arith)
    | inr b ↦ inr (Blames-Move {c = c} (puts usable room) b)
  ]

  pub Noted-Move :
      {c c' : Vars} {g g' h : Worker} → Move m c g c' g' → Noted m n c g h → Noted m n c' g' h
  Noted-Move move i = record { known = known-Move move i; noted = blamed-Move move i }

module _ (m n : Error → Error) where
  Origin-swap : {g h : Worker} {e : Error} → Origin g h e → Origin h g e
  Origin-swap (inl o) = inr o
  Origin-swap (inr o) = inl o

  pub Blames-swap : {o : Option Error} {g h : Worker} → Blames m n o g h → Blames n m o h g
  Blames-swap (e, inl o, origin) = (e, inr o, Origin-swap origin)
  Blames-swap (e, inr o, origin) = (e, inl o, Origin-swap origin)

  pub Noted-swap : {c : Vars} {g h : Worker} → Noted m n c g h → Noted n m c h g
  Noted-swap i = record {
    known = λ e same. Origin-swap (i.known e same);
    noted = elim i.noted [ inl (a, b) ↦ inl (b, a) | inr b ↦ inr (Blames-swap b) ];
  }

  pub Move-told :
      {c c' : Vars} {g g' : Worker}
      → Move m c g c' g'
      → count_sent g' + c.in_channel ≡ count_sent g + c'.in_channel
  Move-told fails = refl
  Move-told (wraps _) = refl
  Move-told (puts _ _) = omega arith

  pub Move-off : {c c' : Vars} {g g' : Worker} → Move m c g c' g' → g ≢ off
  Move-off fails h = absurd (ground arith)
  Move-off (wraps _) h = absurd (ground arith)
  Move-off (puts _ _) h = absurd (ground arith)

pub count_sent-zero : (g : Worker) → wrote g ≡ false → count_sent g ≡ 0
count_sent-zero off h = refl
count_sent-zero serves h = refl
count_sent-zero (tests e) h = refl
count_sent-zero (sends e) h = refl
count_sent-zero (sent e) h = absurd (ground arith)
