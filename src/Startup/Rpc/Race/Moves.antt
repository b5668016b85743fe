-- ===== src/Startup/Rpc/Race/Moves.antt =====
-- What a step of one goroutine of `Start` in pkg/common/startrpc/start.go keeps.
use openim_project_template.Base.{
  ℕ, ◌+◌, ◌≡◌, refl, ◌≢◌, ◌⊎◌, inl, inr, Bool, true, false, Option, some, arith,
}
use openim_project_template.Errors.{Error}
use openim_project_template.Startup.Waiting.{
  Main, waits, stops, closes, returns, answered, received, is_closed,
}
use openim_project_template.Startup.Rpc.Race.{
  Shared, Goroutine, off, serves, sends, sent, Move, quits, fails, puts, Failed, before_send,
  behind_send, sends_closed,
}

-- How often a goroutine has sent.
abbrev pub count_sent : Goroutine → ℕ
count_sent (sent e) = 1
count_sent off = 0
count_sent serves = 0
count_sent (sends e) = 0

abbrev pub has_failed : Goroutine → Bool
has_failed (sent e) = true
has_failed off = false
has_failed serves = false
has_failed (sends e) = true

-- The error is that of a server that has failed.
abbrev pub Blames : (m n : Error → Error) → Option Error → Goroutine → Goroutine → Type 0
Blames m n o g h = (e : Error) × (((o ≡ some (m e)) × Failed g e) ⊎ ((o ≡ some (n e)) × Failed h e))

abbrev pub Noted : (m n : Error → Error) → Option Error → Goroutine → Goroutine → Type 0
Noted m n o g h = ((has_failed g ≡ false) × (has_failed h ≡ false)) ⊎ Blames m n o g h

module _ (m n : Error → Error) where
  pub Blames-swap : {o : Option Error} {g h : Goroutine} → Blames m n o g h → Blames n m o h g
  Blames-swap (e, inl b) = (e, inr b)
  Blames-swap (e, inr b) = (e, inl b)

  pub Noted-swap : {o : Option Error} {g h : Goroutine} → Noted m n o g h → Noted n m o h g
  Noted-swap (inl (a, b)) = inl (b, a)
  Noted-swap (inr b) = inr (Blames-swap b)

  pub Noted-Move :
      {c c' : Shared} {g g' h : Goroutine}
      → Move m c g c' g'
      → Noted m n c.net_err g h
      → Noted m n c'.net_err g' h
  Noted-Move quits (inl (_, b)) = inl (refl, b)
  Noted-Move quits (inr (e, inl (_, failed))) = elim failed [ ]
  Noted-Move quits (inr (e, inr b)) = inr (e, inr b)
  Noted-Move (fails {e = e}) a = inr (e, inl (refl, before_send))
  Noted-Move (puts _ _) (inl (a, _)) = absurd (ground arith)
  Noted-Move (puts _ _) (inr (e, inl (o, before_send))) = inr (e, inl (o, behind_send))
  Noted-Move (puts _ _) (inr (e, inr b)) = inr (e, inr b)

module _ (m : Error → Error) where
  -- A step of a goroutine keeps what it has sent and what is in the channel in step.
  pub Move-told :
      {c c' : Shared} {g g' : Goroutine}
      → Move m c g c' g'
      → (count_sent g' + c.in_channel ≡ count_sent g + c'.in_channel) × (c'.closed ≡ c.closed)
  Move-told quits = (refl, refl)
  Move-told fails = (refl, refl)
  Move-told (puts _ _) = (omega arith, refl)

  pub Move-off : {c c' : Shared} {g g' : Goroutine} → Move m c g c' g' → g ≢ off
  Move-off quits h = absurd (ground arith)
  Move-off fails h = absurd (ground arith)
  Move-off (puts _ _) h = absurd (ground arith)

pub Blames-Move :
    {m n : Error → Error} {o : Option Error} {c c' : Shared} {g g' h : Goroutine}
    → Move m c g c' g'
    → Blames m n o g h
    → Blames m n o g' h
Blames-Move quits (e, inl (_, failed)) = elim failed [ ]
Blames-Move quits (e, inr b) = (e, inr b)
Blames-Move fails (e, inl (_, failed)) = elim failed [ ]
Blames-Move fails (e, inr b) = (e, inr b)
Blames-Move (puts _ _) (e, inl (o, before_send)) = (e, inl (o, behind_send))
Blames-Move (puts _ _) (e, inr b) = (e, inr b)

count_sent-zero : (g : Goroutine) → has_failed g ≡ false → count_sent g ≡ 0
count_sent-zero off h = refl
count_sent-zero serves h = refl
count_sent-zero (sends e) h = refl
count_sent-zero (sent e) h = absurd (ground arith)

pub Blames-noted :
    {m n : Error → Error} {o : Option Error} {g h : Goroutine}
    → Noted m n o g h
    → count_sent g + count_sent h ≢ 0
    → Blames m n o g h
Blames-noted {g = g} {h = h} (inl (a, b)) more =
    absurd (more (omega (arith, count_sent-zero g a, count_sent-zero h b)))
Blames-noted (inr b) more = b

-- A goroutine that sends on the closed channel has not sent before.
pub sends_closed-Failed :
    (c : Shared) (g : Goroutine)
    → sends_closed c g ≡ true
    → (c.closed ≡ true) × (count_sent g ≡ 0) × ((e : Error) × Failed g e)
unfolding sends_closed
sends_closed-Failed c (sends e) h = (h, refl, (e, before_send))
sends_closed-Failed c (sent e) h = absurd (ground arith)
sends_closed-Failed c off h = absurd (ground arith)
sends_closed-Failed c serves h = absurd (ground arith)

pub Failed-of_sent : (g : Goroutine) → count_sent g ≢ 0 → (e : Error) × Failed g e
Failed-of_sent (sent e) h = (e, behind_send)
Failed-of_sent (sends e) h = absurd (h refl)
Failed-of_sent off h = absurd (h refl)
Failed-of_sent serves h = absurd (h refl)

pub received-closed : (m : Main) → is_closed m ≡ true → received m ≡ 1
received-closed returns h = refl
received-closed (answered o) h = refl
received-closed waits h = absurd (ground arith)
received-closed stops h = absurd (ground arith)
received-closed closes h = absurd (ground arith)
