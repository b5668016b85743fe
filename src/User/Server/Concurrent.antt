-- ===== src/User/Server/Concurrent.antt =====
-- Requests to the user service (internal/rpc/user/user.go) that are served at the same time, one
-- goroutine each. MongoDB inserts the documents of InsertMany one by one, in their order, and stops
-- at the first that it refuses: the insertion of one document is a step, and so are the checked_ids
-- before the insertions, the increment of the counter behind them, and a lookup.
pub mod Winner
pub mod Found
pub mod Quiet
use openim_project_template.Base.{
  ℕ, ◌+◌, String, ◌≡◌, ◌==◌, string_eq, nat_eq, if◌then◌else◌, Option, none, some, List, [], ◌∷◌,
  ◌++◌, map, length, Res, ok, err, panics, bind_res,
}
use openim_project_template.Errors.{Error, coded, err_args}
use openim_project_template.Tools.{DataUtil}
use openim_project_template.User.{User, UserInfo, to_model}
use openim_project_template.User.Directory.{Request, register, lookup, Answer, done, fault}
use openim_project_template.User.Storage.{Collection}
use openim_project_template.User.Server.{Server, check_ids, get_designate_users}
use openim_project_template.User.Server.Session.{of_lookup}

-- Where the goroutine of a request is.
pub data Pc : Type 0 where
  waiting : Request → Pc
  -- a registration that has passed its checked_ids, with the documents that are still to be inserted
  inserting : List UserInfo → List User → Pc
  finished : Request → Answer → Pc

-- `UserRegister` up to its insertion.
unfoldable pub checked_ids : DataUtil → List UserInfo → Res (List String)
checked_ids D users =
    if length users == 0
    then err (coded err_args "users is empty")
    else if D.duplicate_any UserInfo users (λ e. e.user_id)
    then err (coded err_args "userID repeated")
    else check_ids users []

module _ (C : Collection) (D : DataUtil) where
  -- The collection after the insertion of one document.
  abbrev pub with_user : User → Server C → Server C
  with_user u s = record s { db = (C.insert_many (u ∷ []) s.db).1 }

  -- A step of one goroutine on the server.
  pub data Move (s : Server C) : Pc → Server C → Pc → Type 0 where
    refuses :
        {us : List UserInfo} {e : Error}
        → checked_ids D us ≡ err e
        → Move s (waiting (register us)) s (finished (register us) (fault e))
    begins :
        {us : List UserInfo} {user_ids : List String}
        → checked_ids D us ≡ ok user_ids
        → Move s (waiting (register us)) s (inserting us (map to_model us))
    inserts :
        {us : List UserInfo} {u : User} {rest : List User}
        → (C.insert_many (u ∷ []) s.db).0 ≡ none
        → Move s (inserting us (u ∷ rest)) (with_user u s) (inserting us rest)
    stops :
        {us : List UserInfo} {u : User} {rest : List User} {e : Error}
        → (C.insert_many (u ∷ []) s.db).0 ≡ some e
        → Move s (inserting us (u ∷ rest)) (with_user u s) (finished (register us) (fault e))
    counts :
        {us : List UserInfo}
        → Move s
            (inserting us [])
            (record s { registered = s.registered + 1 })
            (finished (register us) done)
    looks_up :
        {ks : List String}
        → Move s
            (waiting (lookup ks))
            s
            (finished (lookup ks) (of_lookup (get_designate_users C ks s).0))

  -- A step of any of the goroutines.
  pub data Step (s : Server C) : List Pc → Server C → List Pc → Type 0 where
    here :
        {s' : Server C} {p p' : Pc} {ps : List Pc} → Move s p s' p' → Step s (p ∷ ps) s' (p' ∷ ps)
    there :
        {s' : Server C} {p : Pc} {ps ps' : List Pc}
        → Step s ps s' ps'
        → Step s (p ∷ ps) s' (p ∷ ps')

  pub data Reached (requests : List Request) (s : Server C) : Server C → List Pc → Type 0 where
    start : Reached requests s s (map waiting requests)
    later :
        {t t' : Server C} {ps ps' : List Pc}
        → Reached requests s t ps
        → Step t ps t' ps'
        → Reached requests s t' ps'

-- The requests that are answered, with their answers.
abbrev pub answer_of : Pc → List (Request × Answer)
answer_of (waiting r) = []
answer_of (inserting us rest) = []
answer_of (finished r a) = (r, a) ∷ []

abbrev pub answered : List Pc → List (Request × Answer)
answered [] = []
answered (p ∷ ps) = answer_of p ++ answered ps
