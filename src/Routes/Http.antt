-- ===== src/Routes/Http.antt =====
-- The handlers of the API, internal/api/user.go, over the user service: what a client gets that
-- registers users and then asks for them. The library a2r is the record `A2r`; the stub is the
-- service, with a transport that loses nothing.
use openim_project_template.Base.{
  String, ◌≡◌, refl, ap, ◌∙◌, Option, none, some, List, [], ◌∷◌, All, Act, Res, ok,
}
use openim_project_template.Tools
use openim_project_template.Tools.{DataUtil}
use openim_project_template.User.{UserInfo, check_user_register, check_get_designate_users}
use openim_project_template.User.Directory.{Request}
use openim_project_template.User.Storage
use openim_project_template.User.Storage.{Collection}
use openim_project_template.User.Server.{Server, user_register, get_designate_users}
use openim_project_template.User.Server.Session.{serve}
use openim_project_template.User.Server.Later.{get-serve-user_register}

-- `Call(rpc, client, c)` on the body of a request: the message of the request is read from it,
-- and the answer of the call is written as the reply.
pub record A2r (S : Type 0) : Type 1 where
  pub Body : Type 0
  pub Reply : Type 0
  pub call_register : (List UserInfo → Act S (Unit {0})) → Body → S → Reply × S
  pub call_lookup : (List String → Act S (List UserInfo)) → Body → S → Reply × S

-- A body with a message that its `Check` accepts makes one call, whose answer is the reply. The
-- fields of messages are slices, which `Check` sees as nil or not.
pub record IsLawful {S : Type 0} (A : A2r S) : Type 0 where
  pub read_register : A.Body → Option (Option (List UserInfo))
  pub read_lookup : A.Body → Option (Option (List String))
  pub write_register : Res (Unit {0}) → A.Reply
  pub write_lookup : Res (List UserInfo) → A.Reply
  pub calls_register :
      (rpc : List UserInfo → Act S (Unit {0})) (b : A.Body) (us : List UserInfo) (s : S)
      → read_register b ≡ some (some us)
      → check_user_register (some us) ≡ none
      → A.call_register rpc b s ≡ (write_register (rpc us s).0, (rpc us s).1)
  pub calls_lookup :
      (rpc : List String → Act S (List UserInfo)) (b : A.Body) (ks : List String) (s : S)
      → read_lookup b ≡ some (some ks)
      → check_get_designate_users (some ks) ≡ none
      → A.call_lookup rpc b s ≡ (write_lookup (rpc ks s).0, (rpc ks s).1)

module _ {S : Type 0} (A : A2r S) where
  -- `(*UserApi).UserRegister`; `client` is `u.Client.UserRegister`.
  unfoldable pub api_user_register :
      (client : List UserInfo → Act S (Unit {0})) → A.Body → S → A.Reply × S
  api_user_register client b s = A.call_register client b s

  -- `(*UserApi).GetUsersPublicInfo`
  unfoldable pub api_get_users_public_info :
      (client : List String → Act S (List UserInfo)) → A.Body → S → A.Reply × S
  api_get_users_public_info client b s = A.call_lookup client b s

module _ (C : Collection) (L : Storage.IsLawful C) (D : DataUtil) (T : Tools.IsLawful D)
    (A : A2r (Server C)) (W : IsLawful A) where
  All-answered :
      (asks : String → A.Body) (t : Server C) (us : List UserInfo)
      → ((k : String) → W.read_lookup (asks k) ≡ some (some (k ∷ [])))
      → All (λ u. get_designate_users C (u.user_id ∷ []) t ≡ (ok (u ∷ []), t)) us
      → All
          (λ u.
            api_get_users_public_info A (get_designate_users C) (asks u.user_id) t
            ≡ (W.write_lookup (ok (u ∷ [])), t))
          us
  unfolding api_get_users_public_info
  All-answered asks t [] reads h = tt
  All-answered asks t (u ∷ us) reads (here, h) = (
    W.calls_lookup (get_designate_users C) (asks u.user_id) (u.user_id ∷ []) t (reads u.user_id)
          (unfold check_get_designate_users in refl)
        ∙ ap (λ r. (W.write_lookup r.0, r.1)) here,
    All-answered asks t us reads h,
  )

  -- Over a collection and libraries that keep their laws, after a body with users that the
  -- service registers has been posted to the API and any run of requests behind it, a body that
  -- asks for the id of one of these users gets the reply for that user.
  pub get_users-user_register_http :
      (b : A.Body) (asks : String → A.Body) (us : List UserInfo) (rs : List Request) (s : Server C)
      → W.read_register b ≡ some (some us)
      → check_user_register (some us) ≡ none
      → ((k : String) → W.read_lookup (asks k) ≡ some (some (k ∷ [])))
      → (user_register C D us s).0 ≡ ok tt
      → let (reply, s₁) = api_user_register A (user_register C D) b s in
        let t : Server C = serve C D rs s₁ in
        (reply ≡ W.write_register (ok tt))
        × All
            (λ u.
              api_get_users_public_info A (get_designate_users C) (asks u.user_id) t
              ≡ (W.write_lookup (ok (u ∷ [])), t))
            us
  unfolding api_user_register
  get_users-user_register_http b asks us rs s reads check reads' h =
      let e = W.calls_register (user_register C D) b us s reads check in
      rw (e, h) (refl, All-answered asks _ us reads' (get-serve-user_register C L D T us rs s h))
