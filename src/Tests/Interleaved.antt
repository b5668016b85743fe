-- ===== src/Tests/Interleaved.antt =====
-- Requests that are served at the same time: a lookup finds a user before its registration is
-- counted, and two registrations whose users stand in different orders refuse each other.
use openim_project_template.Base.{
  string_eq, nat_eq, ◌≡◌, ◌+◌, ◌≤◌, ◌⊎◌, refl, List, [], ◌∷◌, ok, map, total, All,
}
use openim_project_template.Errors.{Error, foreign}
use openim_project_template.Tools.Reference.{reference}
use openim_project_template.User.{to_model}
use openim_project_template.User.Directory.{Request, register, lookup, done, fault}
use openim_project_template.User.Server.Concurrent.Quiet.{Reached-quiet, needs, succeeds, steps}
use openim_project_template.User.Server.Concurrent.Winner.{Reached-one_winner, known, wins}
use openim_project_template.User.Server.Concurrent.Found.{Reached-Kept, Kept}
use openim_project_template.User.Storage.Memory.{memory, memory-IsLawful}
use openim_project_template.User.Server.{Server, check_ids, get_designate_users}
use openim_project_template.User.Server.Session.{of_lookup}
use openim_project_template.User.Server.Concurrent.{
  Pc, finished, answered, Step, checked_ids, begins, inserts, stops, looks_up, counts, here, there,
  Reached, start, later, with_user,
}
use openim_project_template.Tests.Data.{alice, bob, two_users, empty_server}

abbrev both : List Request
both = register two_users ∷ lookup ("a1" ∷ []) ∷ []

abbrev with_alice : Server memory
with_alice = with_user memory reference (to_model alice) empty_server

abbrev with_two : Server memory
with_two = with_user memory reference (to_model bob) with_alice

abbrev ended : List Pc
ended =
    finished (register two_users) done
    ∷ finished (lookup ("a1" ∷ []))
        (of_lookup (get_designate_users memory ("a1" ∷ []) with_alice).0)
    ∷ []

checks_two : checked_ids reference two_users ≡ ok ("a1" ∷ "b2" ∷ [])
unfolding checked_ids check_ids string_eq nat_eq
checks_two = refl

checks_turned : checked_ids reference (bob ∷ alice ∷ []) ≡ ok ("b2" ∷ "a1" ∷ [])
unfolding checked_ids check_ids string_eq nat_eq
checks_turned = refl

both-Reached : Reached memory reference both empty_server (record with_two { registered = 1 }) ended
unfolding string_eq
both-Reached =
    later
      (later
        (later (later (later start (here (begins checks_two))) (here (inserts refl)))
          (there (here looks_up)))
        (here (inserts refl)))
      (here counts)

-- The users of one registration in the other order: each has inserted its first user.
abbrev turned : List Request
turned = register two_users ∷ register (bob ∷ alice ∷ []) ∷ []

abbrev duplicate : Error
duplicate = foreign "E11000 duplicate key error"

-- Both are refused, and both users are stored.
abbrev refused : List Pc
refused =
    finished (register two_users) (fault duplicate)
    ∷ finished (register (bob ∷ alice ∷ [])) (fault duplicate)
    ∷ []

turned-Reached : Reached memory reference turned empty_server with_two refused
unfolding string_eq
turned-Reached =
    later
      (later
        (later
          (later
            (later (later start (here (begins checks_two))) (there (here (begins checks_turned))))
            (here (inserts refl)))
          (there (here (inserts refl))))
        (here (stops refl)))
      (there (here (stops refl)))

Reached-one_winner_example : known memory "a1" empty_server.db + wins "a1" (answered ended) ≤ 1
Reached-one_winner_example = Reached-one_winner memory memory-IsLawful reference "a1" both-Reached

Reached-Kept_example : All (Kept memory (record with_two { registered = 1 })) ended
Reached-Kept_example = Reached-Kept memory memory-IsLawful reference both-Reached

Reached-quiet_example :
    (steps memory reference turned-Reached ≤ total needs turned)
    × (with_two.registered ≡ empty_server.registered + total succeeds (answered refused))
    × ((map (λ x. x.0) (answered refused) ≡ turned)
        ⊎ ((t : Server memory) × (ps : List Pc) × Step memory reference with_two refused t ps))
Reached-quiet_example = Reached-quiet memory reference turned-Reached
