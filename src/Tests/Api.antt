-- ===== src/Tests/Api.antt =====
-- The routes of the API, and requests to its handlers.
use openim_project_template.Base.{
  String, ◌<>◌, ◌≡◌, refl, ◌==◌, ◌&&◌, ◌++◌, string_eq, if◌then◌else◌, Option, none, some, List, [],
  ◌∷◌, Any, All, Act, Res, ok, arith,
}
use openim_project_template.Errors.{Error}
use openim_project_template.Tools.Reference.{reference, reference-IsLawful}
use openim_project_template.User.{UserInfo, check_user_register, check_get_designate_users}
use openim_project_template.User.Storage.Memory.{memory, memory-IsLawful}
use openim_project_template.User.Server.{Server, user_register, get_designate_users}
use openim_project_template.User.Server.Session.{serve}
use openim_project_template.Routes
use openim_project_template.Routes.{
  Handler, Gin, new_gin_router, router_with_metrics, measures, user_register as on_register,
}
use openim_project_template.Routes.Laws.{
  behind, handlers-new_gin_router, router_with_metrics_unmeasured,
}
use openim_project_template.Routes.Posts.{
  Post, user_register_posted, passed, registered_by, Refuses, posts, IsNamed, posts-IsNamed,
}
use openim_project_template.User.Directory.{register}
use openim_project_template.Routes.Http
use openim_project_template.Routes.Http.{
  A2r, api_user_register, api_get_users_public_info, get_users-user_register_http,
}
use openim_project_template.Tests.Data.{two_users, empty_server}
use openim_project_template.Tests.Users.{registers_two, requests}

-- An engine: what has been added, and the routes.
record Table : Type 0 where
  globals : List Handler
  routes : String → String → Option (List Handler)

abbrev gin : Gin
gin = record {
  Engine = Table;
  Group = String × List Handler;
  new = record { globals = []; routes = λ m p. none };
  use_ = λ hs e. record e { globals = e.globals ++ hs };
  group = λ base e. (base, e.globals);
  post = λ g path h e. record e {
    routes = λ m p. if m == "POST" && p == g.0 <> path then some (g.1 ++ h ∷ []) else e.routes m p;
  };
  handlers = λ e m p. e.routes m p;
}

gin-IsLawful : Routes.IsLawful gin
gin-IsLawful = record {
  added = λ e. e.globals;
  added-new = refl;
  added-use_ = λ hs e. refl;
  handlers-new = λ m p. refl;
  handlers-use_ = λ hs e m p. refl;
  handlers-post = λ base path made e h m p absent. refl;
}

handlers-new_gin_router_example :
    gin.handlers (new_gin_router gin "openIM123") "POST" "/user/user_register"
    ≡ some (behind "openIM123" on_register)
unfolding string_eq
handlers-new_gin_router_example =
    handlers-new_gin_router gin gin-IsLawful "openIM123" "POST" "/user/user_register"

router_with_metrics_unmeasured_example : ¬ Any (λ h. h ≡ measures) (behind "openIM123" on_register)
router_with_metrics_unmeasured_example =
    router_with_metrics_unmeasured gin gin-IsLawful "openIM123" "POST" "/user/user_register"
      (behind "openIM123" on_register) (unfold router_with_metrics new_gin_router string_eq in refl)

-- A body is the message itself, and so is a reply.
abbrev a2r : A2r (Server memory)
a2r = record {
  Body = List UserInfo × List String;
  Reply = Res (Unit {0}) × Res (List UserInfo);
  call_register = λ rpc b s. elim (check_user_register (some b.0)) [
    | none ↦ (((rpc b.0 s).0, ok []), (rpc b.0 s).1)
    | some e ↦ ((ok tt, ok []), s)
  ];
  call_lookup = λ rpc b s. ((ok tt, (rpc b.1 s).0), (rpc b.1 s).1);
}

read_same :
    {A : Type 0} (x y : A) → ◌≡◌ {A = Option (Option A)} (some (some x)) (some (some y)) → x ≡ y
read_same x y h = cc

calls_register_lem :
    (rpc : List UserInfo → Act (Server memory) (Unit {0})) (b : List UserInfo × List String)
    (us : List UserInfo) (s : Server memory)
    → some (some b.0) ≡ some (some us)
    → check_user_register (some us) ≡ none
    → a2r.call_register rpc b s ≡ (((rpc us s).0, ok []), (rpc us s).1)
calls_register_lem rpc (us', ks) us s h check = rw (read_same us' us h) (rw (check, a2r) refl)

calls_lookup_lem :
    (rpc : List String → Act (Server memory) (List UserInfo)) (b : List UserInfo × List String)
    (ks : List String) (s : Server memory)
    → some (some b.1) ≡ some (some ks)
    → a2r.call_lookup rpc b s ≡ ((ok tt, (rpc ks s).0), (rpc ks s).1)
calls_lookup_lem rpc (us, ks') ks s h = rw (read_same ks' ks h) refl

abbrev a2r_laws : Http.IsLawful a2r
a2r_laws = record {
  read_register = λ b. some (some b.0);
  read_lookup = λ b. some (some b.1);
  write_register = λ r. (r, ok []);
  write_lookup = λ r. (ok tt, r);
  calls_register = λ rpc b us s h check. calls_register_lem rpc b us s h check;
  calls_lookup = λ rpc b ks s h check. calls_lookup_lem rpc b ks s h;
}

abbrev register_reply : a2r.Reply × Server memory
register_reply = api_user_register a2r (user_register memory reference) (two_users, []) empty_server

abbrev later : Server memory
later = serve memory reference requests register_reply.1

get_users-user_register_http_example :
    (register_reply.0 ≡ (ok tt, ok []))
    × All
        (λ u.
          api_get_users_public_info a2r (get_designate_users memory) ([], u.user_id ∷ []) later
          ≡ ((ok tt, ok (u ∷ [])), later))
        two_users
get_users-user_register_http_example =
    get_users-user_register_http memory memory-IsLawful reference reference-IsLawful a2r a2r_laws
      (two_users, []) (λ k. ([], k ∷ [])) two_users requests empty_server refl
      (unfold check_user_register string_eq in refl) (λ k. refl) registers_two

failed-of_passed :
    {A : Type 0} (o : Option Error) (a : A) → passed o a ≡ none → (e : Error) × (o ≡ some e)
failed-of_passed none a h = absurd (ground (arith, h))
failed-of_passed (some e) a h = (e, refl)

refuses_lem :
    (rpc : List UserInfo → Act (Server memory) (Unit {0})) (b : List UserInfo × List String)
    (s : Server memory)
    → registered_by a2r a2r_laws (some (some b.0)) ≡ none
    → (a2r.call_register rpc b s).1 ≡ s
refuses_lem rpc (us, ks) s h =
    let (e, refused) = failed-of_passed (check_user_register (some us)) (register us) h in
    rw (refused, a2r) refl

a2r_refuses : Refuses a2r a2r_laws
unfolding check_get_designate_users
a2r_refuses = record {
  refuses_register = λ rpc b s h. refuses_lem rpc b s h;
  refuses_lookup = λ rpc b s h. absurd (ground (arith, h));
}

-- Two users, and one without a nickname.
abbrev bodies : List (Post a2r)
bodies =
    user_register_posted (two_users, [])
    ∷ user_register_posted (record { user_id = "d4"; nickname = "" } ∷ [], [])
    ∷ []

empty-IsNamed : IsNamed empty_server
empty-IsNamed k u h = absurd (ground (arith, h))

posts-IsNamed_example : IsNamed (posts memory reference a2r bodies empty_server)
posts-IsNamed_example =
    posts-IsNamed memory memory-IsLawful reference reference-IsLawful a2r a2r_laws a2r_refuses
      bodies empty_server empty-IsNamed
