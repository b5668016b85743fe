-- ===== src/User/Server/Concurrent/Quiet.antt =====
-- Goroutines that serve requests come to an end, and what they leave then.
use openim_project_template.Base.{
  ℕ, ◌+◌, ◌≤◌, ◌≡◌, refl, ap, ◌∙◌, inl, inr, ◌⊎◌, Res-cases, Option-cases, Bool, ◌++◌, string_eq,
  List, [], ◌∷◌, map, length, Res, ok, err, panics, arith, total, true, false, nat_eq, String,
}
use openim_project_template.Tools.{DataUtil}
use openim_project_template.User.{UserInfo, to_model}
use openim_project_template.User.Directory.{
  Request, register, lookup, Answer, done, users, fault, crash,
}
use openim_project_template.User.Storage.{Collection}
use openim_project_template.User.Server.{Server, check_ids}
use openim_project_template.User.Server.Concurrent.{
  Pc, waiting, inserting, finished, checked_ids, Move, refuses, begins, inserts, stops, counts,
  looks_up, Step, here, there, Reached, start, later, answer_of, answered,
}

abbrev pub request_of : Pc → Request
request_of (waiting r) = r
request_of (inserting us rest) = register us
request_of (finished r a) = r

-- The steps that a request takes at most: a registration its checked_ids, an insertion for each of its
-- users and the increment, a lookup one.
abbrev pub needs : Request → ℕ
needs (register us) = length us + 2
needs (lookup ks) = 1

abbrev pub left_of : Pc → ℕ
left_of (waiting r) = needs r
left_of (inserting us rest) = length rest + 1
left_of (finished r a) = 0

-- 1 for a registration that is done.
abbrev pub succeeds : Request × Answer → ℕ
succeeds (register us, done) = 1
succeeds (register us, users _) = 0
succeeds (register us, fault _) = 0
succeeds (register us, crash) = 0
succeeds (lookup ks, a) = 0

abbrev crashes {ℓ} : {A : Type ℓ} → Res A → Bool
crashes (ok a) = false
crashes (err e) = false
crashes panics = true

check_ids_safe : (us : List UserInfo) (ks : List String) → crashes (check_ids us ks) ≡ false
unfolding check_ids
check_ids_safe [] ks = refl
check_ids_safe (u ∷ us) ks = ground (arith, check_ids_safe us (ks ++ u.user_id ∷ []))

length-to_model : (us : List UserInfo) → length (map to_model us) ≡ length us
length-to_model [] = refl
length-to_model (u ∷ us) = omega (arith, length-to_model us)

module _ (C : Collection) (D : DataUtil) where
  checks_safe : (us : List UserInfo) → crashes (checked_ids D us) ≡ false
  unfolding checked_ids
  checks_safe us = ground (arith, check_ids_safe us [])

  -- A goroutine that has not finished has a step.
  Move-of_left :
      (s : Server C) (p : Pc) → (left_of p ≡ 0) ⊎ ((s' : Server C) × (p' : Pc) × Move C D s p s' p')
  Move-of_left s (waiting (register us)) = elim (Res-cases (checked_ids D us)) [
    | inl (ks, fine) ↦ inr (_, _, begins fine)
    | inr (inl (e, failed)) ↦ inr (_, _, refuses failed)
    | inr (inr panicked) ↦ absurd (ground (arith, panicked, checks_safe us))
  ]
  Move-of_left s (waiting (lookup ks)) = inr (_, _, looks_up)
  Move-of_left s (inserting us []) = inr (_, _, counts)
  Move-of_left s (inserting us (u ∷ rest)) = elim (Option-cases (C.insert_many (u ∷ []) s.db).0) [
    | inl fine ↦ inr (_, _, inserts fine)
    | inr (e, failed) ↦ inr (_, _, stops failed)
  ]
  Move-of_left s (finished r a) = inl refl

  Step-of_left :
      (s : Server C) (ps : List Pc)
      → (total left_of ps ≡ 0) ⊎ ((s' : Server C) × (ps' : List Pc) × Step C D s ps s' ps')
  Step-of_left s [] = inl refl
  Step-of_left s (p ∷ ps) = elim (Move-of_left s p) [
    | inr (s', p', move) ↦ inr (s', p' ∷ ps, here move)
    | inl here_none ↦ elim (Step-of_left s ps) [
      | inl none_there ↦ inl (omega (arith, here_none, none_there))
      | inr (s', ps', step) ↦ inr (s', p ∷ ps', there step)
    ]
  ]

  -- A step takes from what is left, keeps the request, and counts if it answers a registration.
  abbrev Progress : Server C → Server C → Pc → Pc → Type 0
  Progress s s' p p' =
      (left_of p' + 1 ≤ left_of p)
      × (request_of p' ≡ request_of p)
      × (s'.registered + total succeeds (answer_of p)
          ≡ s.registered + total succeeds (answer_of p'))

  Move-Progress : {s s' : Server C} {p p' : Pc} → Move C D s p s' p' → Progress s s' p p'
  Move-Progress (refuses _) = (omega arith, refl, omega arith)
  Move-Progress (begins {us = us} _) = (omega (arith, length-to_model us), refl, omega arith)
  Move-Progress (inserts _) = (omega arith, refl, omega arith)
  Move-Progress (stops _) = (omega arith, refl, omega arith)
  Move-Progress counts = (omega arith, refl, omega arith)
  Move-Progress looks_up = (omega arith, refl, omega arith)

  succeeds-append :
      (xs ys : List (Request × Answer))
      → total succeeds (xs ++ ys) ≡ total succeeds xs + total succeeds ys
  succeeds-append [] ys = omega arith
  succeeds-append (x ∷ xs) ys = omega (arith, succeeds-append xs ys)

  pub Step-Progress :
      {s s' : Server C} {ps ps' : List Pc}
      → Step C D s ps s' ps'
      → (total left_of ps' + 1 ≤ total left_of ps)
        × (map request_of ps' ≡ map request_of ps)
        × (s'.registered + total succeeds (answered ps)
            ≡ s.registered + total succeeds (answered ps'))
  Step-Progress (here {p = p} {p' = p'} {ps = ps} move) =
      let (less, same, count) = Move-Progress move in
      (
        omega (arith, less),
        ap (λ r. r ∷ map request_of ps) same,
        omega (
          arith,
          count,
          succeeds-append (answer_of p) (answered ps),
          succeeds-append (answer_of p') (answered ps),
        ),
      )
  Step-Progress (there {p = p} {ps = ps} {ps' = ps'} step) =
      let (less, same, count) = Step-Progress step in
      (
        omega (arith, less),
        ap (λ rs. request_of p ∷ rs) same,
        omega (
          arith,
          count,
          succeeds-append (answer_of p) (answered ps),
          succeeds-append (answer_of p) (answered ps'),
        ),
      )

  -- How many steps lead to what is reached.
  abbrev pub steps :
      {requests : List Request} {s t : Server C} {ps : List Pc} → Reached C D requests s t ps → ℕ
  steps start = 0
  steps (later r step) = steps r + 1

  begun :
      (rs : List Request)
      → (total left_of (map waiting rs) ≡ total needs rs)
        × (map request_of (map waiting rs) ≡ rs)
        × (answered (map waiting rs) ≡ [])
  begun [] = (refl, refl, refl)
  begun (r ∷ rs) = let (a, b, c) = begun rs in (omega (arith, a), ap (λ l. r ∷ l) b, c)

  Reached-Progress :
      {requests : List Request} {s t : Server C} {ps : List Pc} (r : Reached C D requests s t ps)
      → (steps r + total left_of ps ≤ total needs requests)
        × (map request_of ps ≡ requests)
        × (t.registered ≡ s.registered + total succeeds (answered ps))
  Reached-Progress {requests = requests} start =
      let (a, b, c) = begun requests in (omega (arith, a), b, omega (arith, ap (total succeeds) c))
  Reached-Progress (later r step) =
      let (a, b, c) = Reached-Progress r in
      let (less, same, count) = Step-Progress step in
      (omega (arith, a, less), same ∙ b, omega (arith, c, count))

  -- Of goroutines that have finished, each request has its answer.
  answered_requests :
      (ps : List Pc) → total left_of ps ≡ 0 → map (λ x. x.0) (answered ps) ≡ map request_of ps
  answered_requests [] h = refl
  answered_requests (waiting (register us) ∷ ps) h = absurd (omega (arith, h))
  answered_requests (waiting (lookup ks) ∷ ps) h = absurd (omega (arith, h))
  answered_requests (inserting us rest ∷ ps) h = absurd (omega (arith, h))
  answered_requests (finished r a ∷ ps) h =
      ap (λ rs. r ∷ rs) (answered_requests ps (omega (arith, h)))

  -- Goroutines that serve requests at the same time, in which each document is inserted by a
  -- step of its own, take in all, in any order, at most one step for each lookup and two more
  -- than its users for each registration. The counter has grown at any time by the number of
  -- registrations that are answered without an error, and every request is answered, or some
  -- goroutine has a step.
  pub Reached-quiet :
      {requests : List Request} {s t : Server C} {ps : List Pc}
      → (r : Reached C D requests s t ps)
      → (steps r ≤ total needs requests)
        × (t.registered ≡ s.registered + total succeeds (answered ps))
        × ((map (λ x. x.0) (answered ps) ≡ requests)
            ⊎ ((t' : Server C) × (ps' : List Pc) × Step C D t ps t' ps'))
  Reached-quiet {t = t} {ps = ps} r =
      let (few, same, count) = Reached-Progress r in
      (
        omega (arith, few),
        count,
        elim (Step-of_left t ps) [
          | inl over ↦ inl (answered_requests ps over ∙ same)
          | inr step ↦ inr step
        ],
      )
