-- ===== src/Tests/Users.antt =====
-- The user service: two registrations and lookups.
use openim_project_template.Base.{
  ◌≡◌, ◌⊎◌, Any, ◌↔◌, refl, none, some, List, [], ◌∷◌, All, ok, string_eq, nat_eq, arith,
}
use openim_project_template.Tools.Reference.{reference, reference-IsLawful}
use openim_project_template.User.{User, UserInfo}
use openim_project_template.User.Storage.Memory.{memory, memory-IsLawful}
use openim_project_template.User.Server.{Server, check_ids, user_register, get_designate_users}
use openim_project_template.User.Server.Valid.{IsRegistrable}
use openim_project_template.User.Server.Register.{inserted, user_register-ok_iff}
use openim_project_template.User.Server.Lookup.{to_info, get_designate_users-ok_iff}
use openim_project_template.User.Directory
use openim_project_template.User.Directory.{Request, Run, Registers}
use openim_project_template.User.Server.Session.{serve, IsClean, serve-IsClean, answers}
use openim_project_template.User.Server.Refinement.{view, serve_refines}
use openim_project_template.User.Server.Later.{get-serve_origin, get-serve-user_register}
use openim_project_template.Tests.Data.{alice, bob, colon, two_users, empty_server}

abbrev after_two : Server memory
after_two = (user_register memory reference two_users empty_server).1

pub registers_two : (user_register memory reference two_users empty_server).0 ≡ ok tt
unfolding user_register check_ids string_eq nat_eq
registers_two = refl

counts_two : after_two.registered ≡ 1
unfolding user_register check_ids string_eq nat_eq
counts_two = refl

finds_bob : (get_designate_users memory ("b2" ∷ []) after_two).0 ≡ ok (bob ∷ [])
unfolding user_register check_ids get_designate_users string_eq nat_eq
finds_bob = refl

colon_refused : ¬ IsRegistrable (alice ∷ colon ∷ [])
colon_refused v = v.valid.1.0.1.1.0 refl

empty-IsClean : IsClean {C = memory} empty_server
empty-IsClean k h = absurd (ground arith)

user_register-ok_iff_example :
    ((user_register memory reference two_users empty_server).0 ≡ ok tt)
    ↔ (IsRegistrable two_users × ((inserted memory two_users empty_server).0 ≡ none))
user_register-ok_iff_example =
    user_register-ok_iff memory reference reference-IsLawful two_users empty_server

get_designate_users-ok_iff_example :
    ((get_designate_users memory ("b2" ∷ []) after_two).0 ≡ ok (bob ∷ [])) ↔ (
      (u : User) × ("b2" ∷ [] ≡ u.user_id ∷ [])
      × (memory.find_one u.user_id after_two.db ≡ (some u, none))
      × (bob ∷ [] ≡ to_info u ∷ []))
get_designate_users-ok_iff_example =
    get_designate_users-ok_iff memory memory-IsLawful ("b2" ∷ []) (bob ∷ []) after_two

abbrev pub requests : List Request
requests =
    Directory.register two_users
    ∷ Directory.lookup ("a1" ∷ [])
    ∷ Directory.register (colon ∷ [])
    ∷ []

serve-IsClean_example : IsClean {C = memory} (serve memory reference requests empty_server)
serve-IsClean_example =
    serve-IsClean memory memory-IsLawful reference reference-IsLawful requests empty_server
      empty-IsClean

abbrev after_requests : Server memory
after_requests = serve memory reference requests after_two

serve_refines_example :
    Run
      (view memory empty_server.db)
      requests
      (answers memory reference requests empty_server)
      (view memory (serve memory reference requests empty_server).db)
serve_refines_example =
    serve_refines memory memory-IsLawful reference reference-IsLawful requests empty_server

get-serve-user_register_example :
    All
      (λ u.
        get_designate_users memory (u.user_id ∷ []) after_requests ≡ (ok (u ∷ []), after_requests))
      two_users
get-serve-user_register_example =
    get-serve-user_register memory memory-IsLawful reference reference-IsLawful two_users requests
      empty_server registers_two

-- Bob, whom the service knew before the run.
finds_bob_later : (get_designate_users memory ("b2" ∷ []) after_requests).0 ≡ ok (bob ∷ [])
unfolding user_register check_ids get_designate_users serve string_eq nat_eq
finds_bob_later = refl

get-serve_origin_example :
    (u : UserInfo) × (bob ∷ [] ≡ u ∷ [])
    × ("b2" ∷ [] ≡ u.user_id ∷ [])
    × ((view memory after_two.db u.user_id ≡ some u) ⊎ Any (Registers u) requests)
get-serve_origin_example =
    get-serve_origin memory memory-IsLawful reference reference-IsLawful ("b2" ∷ []) (bob ∷ [])
      requests after_two finds_bob_later
