-- ===== src/Tests/Clients.antt =====
-- The client of the user service, over a service that holds two users.
use openim_project_template.Base.{
  String, ◌≡◌, ◌≢◌, ◌↔◌, List, [], ◌∷◌, All, Res, ok, contains, string_eq, nat_eq,
}
use openim_project_template.Tools.Reference.{reference, reference-IsLawful}
use openim_project_template.User.{UserInfo}
use openim_project_template.User.Storage.Memory.{memory, memory-IsLawful}
use openim_project_template.User.Server.{user_register, get_designate_users}
use openim_project_template.User.Server.Valid.{info_ids}
use openim_project_template.User.Client.{get_users_info, get_user_info}
use openim_project_template.User.Client.Answers.{get_users_info-ok_iff}
use openim_project_template.User.Client.EndToEnd.{get_user_info-user_register, get_users_info_many}
use openim_project_template.Tests.Data.{two_users, empty_server}
use openim_project_template.Tests.Users.{registers_two}

-- A service that answers two users, whatever it is asked.
abbrev both : List String → Unit {0} → Res (List UserInfo) × Unit {0}
both ks s = (ok two_users, s)

abbrev both_ids : List String
both_ids = "a1" ∷ "b2" ∷ []

get_users_info-ok_iff_example : ((get_users_info reference both both_ids tt).0 ≡ ok two_users) ↔ (
    ((both both_ids tt).0 ≡ ok two_users)
    × ((x : String) → contains both_ids x ≡ contains (info_ids two_users) x))
get_users_info-ok_iff_example =
    get_users_info-ok_iff reference reference-IsLawful both "a1" ("b2" ∷ []) two_users tt

get_user_info-user_register_example :
    All
      (λ u.
        (get_user_info reference
          (get_designate_users memory)
          u.user_id
          (user_register memory reference two_users empty_server).1).0
        ≡ ok u)
      two_users
get_user_info-user_register_example =
    get_user_info-user_register memory memory-IsLawful reference reference-IsLawful two_users
      empty_server registers_two

get_users_info_many_example :
    (get_users_info reference
      (get_designate_users memory)
      both_ids
      (user_register memory reference two_users empty_server).1).0
    ≢ ok two_users
get_users_info_many_example =
    get_users_info_many memory memory-IsLawful reference reference-IsLawful "a1" "b2" [] two_users
      (user_register memory reference two_users empty_server).1
