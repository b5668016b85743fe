-- ===== src/User/Client/Public.antt =====
-- What the client's calls for public information answer.
use openim_project_template.Base.{
  String, ◌≡◌, refl, List, [], ◌∷◌, map, Res, ok, err, panics, Act, continue, pure, lift,
}
use openim_project_template.Tools
use openim_project_template.Tools.{DataUtil}
use openim_project_template.User.{UserInfo}
use openim_project_template.User.Client.{
  PublicUserInfo, public, first, get_users_info, get_user_info, get_public_user_infos,
  get_public_user_info,
}

abbrev pub map_res : {A B : Type 0} → (A → B) → Res A → Res B
map_res f (ok a) = ok (f a)
map_res f (err e) = err e
map_res f panics = panics

module _ {S : Type 0} (D : DataUtil) (T : Tools.IsLawful D)
    (call : List String → Act S (List UserInfo)) where
  public_step :
      (r : Res (List UserInfo)) (t : S)
      → continue r (λ users. pure (D.slice UserInfo PublicUserInfo users public)) t
        ≡ (map_res (map public) r, t)
  public_step (ok infos) t = rw T.slice_lem
  public_step (err e) t = refl
  public_step panics t = refl

  first_step :
      (r : Res (List UserInfo)) (t : S)
      → let m : Res UserInfo × S = continue r (λ users. lift (first users)) t in
        continue (map_res (map public) r) (λ users. lift (first users)) t
        ≡ (map_res public m.0, m.1)
  first_step (ok []) t = refl
  first_step (ok (u ∷ infos)) t = refl
  first_step (err e) t = refl
  first_step panics t = refl

  -- `GetPublicUserInfos` answers what `GetUsersInfo` does, each user by its id and nickname.
  get_public_user_infos_lem :
      (ks : List String) (s : S)
      → get_public_user_infos D call ks s
        ≡ (map_res (map public) (get_users_info D call ks s).0, (get_users_info D call ks s).1)
  unfolding get_public_user_infos
  get_public_user_infos_lem ks s = public_step (get_users_info D call ks s).0 _

  -- With the library functions as documented, GetPublicUserInfo answers the public part of what
  -- GetUserInfo answers, with the same errors and panics and the same state.
  pub get_public_user_info_lem :
      (k : String) (s : S)
      → get_public_user_info D call k s
        ≡ (map_res public (get_user_info D call k s).0, (get_user_info D call k s).1)
  unfolding get_public_user_info get_user_info
  get_public_user_info_lem k s =
      rw get_public_user_infos_lem (first_step (get_users_info D call (k ∷ []) s).0 _)
