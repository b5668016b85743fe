-- ===== src/User.antt =====
-- The user service: its data (pkg/common/storage/model/user.go, pkg/protocol/user/user.go,
-- pkg/common/convert/user.go), with the layers in the modules below.
pub mod Storage
pub mod Server
pub mod Client
pub mod Directory
use openim_project_template.Base.{
  String, ◌==◌, string_eq, if◌then◌else◌, Option, none, some, List, [], ◌∷◌, Res, ok, panics,
  bind_res,
}
use openim_project_template.Errors.{Error, new}

-- `model.User`, the document that is stored.
pub record User : Type 0 where
  pub user_id : String
  pub nickname : String

-- `pbuser.UserInfo`, the message. The elements of a repeated field of a message are never nil.
pub record UserInfo : Type 0 where
  pub user_id : String
  pub nickname : String

-- One round of the loop of `UserRegister` that builds the documents.
abbrev pub to_model : UserInfo → User
to_model u = record { user_id = u.user_id; nickname = u.nickname }

-- The body of the loop of `UsersDB2Pb`; a nil pointer (`none`) is dereferenced.
abbrev user_db2pb : Option User → Res UserInfo
user_db2pb none = panics
user_db2pb (some u) = ok (record { user_id = u.user_id; nickname = u.nickname })

unfoldable pub users_db2pb : List (Option User) → Res (List UserInfo)
users_db2pb [] = ok []
users_db2pb (u ∷ us) = bind_res (user_db2pb u) λ p. bind_res (users_db2pb us) λ ps. ok (p ∷ ps)

-- `(*GetDesignateUsersReq).Check`. A nil slice is `none`; the result is nil (`none`) or an error.
unfoldable pub check_get_designate_users : Option (List String) → Option Error
check_get_designate_users none = some (new "UserIDs is empty")
check_get_designate_users (some ids) = none

abbrev pub check_nicknames : List UserInfo → Option Error
check_nicknames [] = none
check_nicknames (u ∷ us) =
    if u.nickname == "" then some (new "nickname is empty") else check_nicknames us

-- `(*UserRegisterReq).Check`
unfoldable pub check_user_register : Option (List UserInfo) → Option Error
check_user_register none = some (new "users are empty")
check_user_register (some us) = check_nicknames us
