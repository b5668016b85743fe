-- ===== src/Routes/Posts.antt =====
-- Runs of bodies that are posted to the two routes of the API (internal/api/user.go), with the
-- checks of their messages (pkg/protocol/user/user.go), over the user service.
use openim_project_template.Base.{
  String, ◌≡◌, ◌≢◌, refl, sym, ap, ◌∙◌, ◌⊎◌, inl, inr, Option, none, some, List, [], ◌∷◌, Any, Act,
  string_eq, arith, Option-cases,
}
use openim_project_template.Errors.{Error}
use openim_project_template.Tools
use openim_project_template.Tools.{DataUtil}
use openim_project_template.User.{
  UserInfo, check_user_register, check_get_designate_users, check_nicknames,
}
use openim_project_template.User.Directory.{Request, register, lookup, Registers, Run-origin}
use openim_project_template.User.Storage
use openim_project_template.User.Storage.{Collection}
use openim_project_template.User.Server.{Server, user_register, get_designate_users}
use openim_project_template.User.Server.Session.{serve, serve_one}
use openim_project_template.User.Server.Refinement.{view, serve_refines}
use openim_project_template.Routes.Http
use openim_project_template.Routes.Http.{A2r, api_user_register, api_get_users_public_info}

pub data Post {S : Type 0} (A : A2r S) : Type 0 where
  user_register_posted get_users_info_posted : A.Body → Post A

abbrev pub maybe_cons : Option Request → List Request → List Request
maybe_cons none rs = rs
maybe_cons (some r) rs = r ∷ rs

-- A value that a check lets pass.
abbrev pub passed : {A : Type 0} → Option Error → A → Option A
passed none a = some a
passed (some e) a = none

module _ {S : Type 0} (A : A2r S) (W : Http.IsLawful A) where
  abbrev pub registered_by : Option (Option (List UserInfo)) → Option Request
  registered_by none = none
  registered_by (some none) = none
  registered_by (some (some us)) = passed (check_user_register (some us)) (register us)

  abbrev pub looked_up_by : Option (Option (List String)) → Option Request
  looked_up_by none = none
  looked_up_by (some none) = none
  looked_up_by (some (some ks)) = passed (check_get_designate_users (some ks)) (lookup ks)

  -- The request that a body makes, if it can be read and passes its check.
  abbrev pub request_of : Post A → Option Request
  request_of (user_register_posted b) = registered_by (W.read_register b)
  request_of (get_users_info_posted b) = looked_up_by (W.read_lookup b)

  -- Any other body makes no call.
  pub record Refuses : Type 0 where
    pub refuses_register :
        (rpc : List UserInfo → Act S (Unit {0})) (b : A.Body) (s : S)
        → registered_by (W.read_register b) ≡ none
        → (A.call_register rpc b s).1 ≡ s
    pub refuses_lookup :
        (rpc : List String → Act S (List UserInfo)) (b : A.Body) (s : S)
        → looked_up_by (W.read_lookup b) ≡ none
        → (A.call_lookup rpc b s).1 ≡ s

  abbrev pub requests_of : List (Post A) → List Request
  requests_of [] = []
  requests_of (p ∷ ps) = maybe_cons (request_of p) (requests_of ps)

module _ (C : Collection) (D : DataUtil) (A : A2r (Server C)) where
  -- What a body leaves of the service.
  unfoldable pub post : Post A → Server C → Server C
  unfolding api_user_register api_get_users_public_info
  post (user_register_posted b) s = (api_user_register A (user_register C D) b s).1
  post (get_users_info_posted b) s = (api_get_users_public_info A (get_designate_users C) b s).1

  unfoldable pub posts : List (Post A) → Server C → Server C
  unfolding post
  posts [] s = s
  posts (p ∷ ps) s = posts ps (post p s)

-- The user has a nickname.
abbrev pub IsNamed : {C : Collection} → Server C → Type 0
IsNamed {C} s = (k : String) (u : UserInfo) → view C s.db k ≡ some u → u.nickname ≢ ""

module _ (C : Collection) (L : Storage.IsLawful C) (D : DataUtil) (T : Tools.IsLawful D)
    (A : A2r (Server C)) (W : Http.IsLawful A) (R : Refuses A W) where
  post_register :
      (b : A.Body) (s : Server C) (m : Option (Option (List UserInfo)))
      → W.read_register b ≡ m
      → post C D A (user_register_posted b) s ≡ serve C D (maybe_cons (registered_by A W m) []) s
  unfolding post serve serve_one
  post_register b s none e = R.refuses_register (user_register C D) b s (ap (registered_by A W) e)
  post_register b s (some none) e =
      R.refuses_register (user_register C D) b s
        (ap (registered_by A W) e ∙ unfold check_user_register in refl)
  post_register b s (some (some us)) e = elim (Option-cases (check_user_register (some us))) [
    | inl fine ↦ rw fine (ap (λ r. r.1) (W.calls_register (user_register C D) b us s e fine))
    | inr (err, failed) ↦
        rw failed
          (R.refuses_register (user_register C D) b s (ap (registered_by A W) e ∙ rw failed refl))
  ]

  post_lookup :
      (b : A.Body) (s : Server C) (m : Option (Option (List String)))
      → W.read_lookup b ≡ m
      → post C D A (get_users_info_posted b) s ≡ serve C D (maybe_cons (looked_up_by A W m) []) s
  unfolding post serve serve_one check_get_designate_users
  post_lookup b s none e = R.refuses_lookup (get_designate_users C) b s (ap (looked_up_by A W) e)
  post_lookup b s (some none) e =
      R.refuses_lookup (get_designate_users C) b s (ap (looked_up_by A W) e)
  post_lookup b s (some (some ks)) e =
      ap (λ r. r.1) (W.calls_lookup (get_designate_users C) b ks s e refl)

  serve-maybe_cons :
      (o : Option Request) (rs : List Request) (s : Server C)
      → serve C D (maybe_cons o rs) s ≡ serve C D rs (serve C D (maybe_cons o []) s)
  unfolding serve
  serve-maybe_cons none rs s = refl
  serve-maybe_cons (some r) rs s = refl

  post-serve :
      (p : Post A) (s : Server C) → post C D A p s ≡ serve C D (maybe_cons (request_of A W p) []) s
  post-serve (user_register_posted b) s = post_register b s (W.read_register b) refl
  post-serve (get_users_info_posted b) s = post_lookup b s (W.read_lookup b) refl

  -- A run of bodies leaves what the requests leave that pass the checks.
  pub posts-serve :
      (ps : List (Post A)) (s : Server C) → posts C D A ps s ≡ serve C D (requests_of A W ps) s
  unfolding posts
  posts-serve [] s = unfold serve in refl
  posts-serve (p ∷ ps) s =
      posts-serve ps (post C D A p s)
      ∙ ap (serve C D (requests_of A W ps)) (post-serve p s)
      ∙ sym (serve-maybe_cons (request_of A W p) (requests_of A W ps) s)

  named_users :
      (us : List UserInfo) (u : UserInfo)
      → check_nicknames us ≡ none
      → Any (λ v. v ≡ u) us
      → u.nickname ≢ ""
  named_users [] u h nowhere = absurd nowhere
  named_users (v ∷ us) u h (inl here) = λ e. absurd (ground (arith, h, here, e))
  named_users (v ∷ us) u h (inr later) = named_users us u (ground (arith, h)) later

  named_passed :
      (us : List UserInfo) (u : UserInfo) (o : Option Error)
      → check_nicknames us ≡ o
      → Any (Registers u) (maybe_cons (passed o (register us)) [])
      → u.nickname ≢ ""
  named_passed us u none h (inl there) = named_users us u h there
  named_passed us u none h (inr nowhere) = absurd nowhere
  named_passed us u (some e) h nowhere = absurd nowhere

  named_body :
      (m : Option (Option (List UserInfo))) (u : UserInfo)
      → Any (Registers u) (maybe_cons (registered_by A W m) [])
      → u.nickname ≢ ""
  unfolding check_user_register
  named_body none u nowhere = absurd nowhere
  named_body (some none) u nowhere = absurd nowhere
  named_body (some (some us)) u there = named_passed us u (check_nicknames us) refl there

  lookup_body :
      (m : Option (Option (List String))) (u : UserInfo)
      → ¬ Any (Registers u) (maybe_cons (looked_up_by A W m) [])
  unfolding check_get_designate_users
  lookup_body none u nowhere = nowhere
  lookup_body (some none) u nowhere = nowhere
  lookup_body (some (some ks)) u (inl nowhere) = nowhere
  lookup_body (some (some ks)) u (inr nowhere) = nowhere

  named_post :
      (p : Post A) (u : UserInfo)
      → Any (Registers u) (maybe_cons (request_of A W p) [])
      → u.nickname ≢ ""
  named_post (user_register_posted b) u there = named_body (W.read_register b) u there
  named_post (get_users_info_posted b) u there = absurd (lookup_body (W.read_lookup b) u there)

  Any-maybe_cons :
      (P : Request → Type 0) (o : Option Request) (rs : List Request)
      → Any P (maybe_cons o rs)
      → Any P (maybe_cons o []) ⊎ Any P rs
  Any-maybe_cons P none rs there = inr there
  Any-maybe_cons P (some r) rs (inl here) = inl (inl here)
  Any-maybe_cons P (some r) rs (inr later) = inr later

  named_requests :
      (ps : List (Post A)) (u : UserInfo) → Any (Registers u) (requests_of A W ps) → u.nickname ≢ ""
  named_requests [] u nowhere = absurd nowhere
  named_requests (p ∷ ps) u there =
      elim (Any-maybe_cons (Registers u) (request_of A W p) (requests_of A W ps) there) [
        | inl here ↦ named_post p u here
        | inr later ↦ named_requests ps u later
      ]

  -- Over a collection and libraries that keep their laws, where a body that cannot be read or
  -- fails its check makes no call: no run of bodies that are posted to the API makes a user
  -- known without a nickname, if none was known before.
  pub posts-IsNamed : (ps : List (Post A)) (s : Server C) → IsNamed s → IsNamed (posts C D A ps s)
  posts-IsNamed ps s named k u there =
      let rs = requests_of A W ps in
      let known : view C (serve C D rs s).db k ≡ some u =
        sym (ap (λ t. view C t.db k) (posts-serve ps s)) ∙ there in
      elim (Run-origin rs (serve_refines C L D T rs s) known) [
        | inl before ↦ named k u before
        | inr new ↦ named_requests ps u new
      ]
