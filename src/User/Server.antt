-- ===== src/User/Server.antt =====
-- The handlers of the user service, internal/rpc/user/user.go. The state is the collection and
-- the counter `prommetrics.UserRegisterCounter`.
pub mod Register
pub mod Lookup
pub mod Valid
pub mod Session
pub mod Refinement
pub mod Later
pub mod Concurrent
pub mod Start
use openim_project_template.Base.{
  ℕ, ◌+◌, String, ◌==◌, string_eq, nat_eq, if◌then◌else◌, Option, none, some, List, [], ◌∷◌, ◌++◌,
  map, length, Res, ok, err, panics, bind_res, Act, lift, pure, fail, ◌>>=◌, ◌>>◌,
}
use openim_project_template.Base.Text.{contains_char}
use openim_project_template.Errors.{Error, coded, err_args}
use openim_project_template.Tools.{DataUtil}
use openim_project_template.User.{User, UserInfo, to_model, users_db2pb}
use openim_project_template.User.Storage.{Collection, storage_create, find_with_error}

pub record Server (C : Collection) : Type 0 where
  pub db : C.State
  pub registered : ℕ

-- The loop of `UserRegister` that checks the ids and collects them.
unfoldable pub check_ids : List UserInfo → List String → Res (List String)
unfolding contains_char
check_ids [] user_ids = ok user_ids
check_ids (u ∷ us) user_ids =
    if u.user_id == ""
    then err (coded err_args "userID is empty")
    else if contains_char b':' u.user_id
    then err (coded err_args "userID contains ':' is invalid userID")
    else check_ids us (user_ids ++ u.user_id ∷ [])

module _ (C : Collection) where
  -- A call of the storage handler on the server's collection.
  abbrev in_db : {A : Type 0} → Act C.State A → Act (Server C) A
  in_db m s = ((m s.db).0, record s { db = (m s.db).1 })

  -- `prommetrics.UserRegisterCounter.Inc()`
  abbrev inc : Act (Server C) (Unit {0})
  inc s = (ok tt, record s { registered = s.registered + 1 })

  -- `UserRegister`; `UserRegisterResp` has no field.
  unfoldable pub user_register : DataUtil → List UserInfo → Act (Server C) (Unit {0})
  unfolding storage_create
  user_register D users =
      if length users == 0
      then fail (coded err_args "users is empty")
      else if D.duplicate_any UserInfo users (λ e. e.user_id)
      then fail (coded err_args "userID repeated")
      else do lift (check_ids users []); in_db (storage_create C (map to_model users)); inc

  -- The rest of `GetDesignateUsers`, on the two results of `FindWithError`.
  abbrev to_resp : List (Option User) × Option Error → Res (List UserInfo)
  to_resp (users, some e) = err e
  to_resp (users, none) = users_db2pb users

  -- `GetDesignateUsers`; the response is its field `UsersInfo`.
  unfoldable pub get_designate_users : List String → Act (Server C) (List UserInfo)
  unfolding find_with_error users_db2pb
  get_designate_users user_ids s = (bind_res (find_with_error C user_ids s.db) to_resp, s)
