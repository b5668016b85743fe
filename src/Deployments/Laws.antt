-- ===== src/Deployments/Laws.antt =====
-- What the sample of deployments/d.go does: where its programs meet, and which names it lists.
use openim_project_template.Base.{
  String, ◌<>◌, ◌≡◌, ◌≢◌, ◌↔◌, ◌⊎◌, inl, inr, refl, ◌∙◌, sym, ap, string_eq, Option, none, some,
  List, [], ◌∷◌, ◌++◌, map, ok, arith,
}
use mathlib.Core.List.{append-nil, append_assoc}
use openim_project_template.Errors.{Error}
use openim_project_template.Deployments.{
  Env, listen_port, Users, read_all, set_user, get_users, Reply, users, message,
  set_username_handler, get_usernames_handler,
}

-- The gRPC program of the sample listens on the port that its HTTP program dials exactly if the
-- deployment is Kubernetes and GRPC_PORT is set, or GRPC_PORT is 50051: outside Kubernetes the
-- former does not read GRPC_PORT.
pub listen_port-dialled_iff :
    (getenv : Env)
    → (listen_port getenv ≡ getenv "GRPC_PORT") ↔ (
        ((getenv "DEPLOYMENT_TYPE" ≡ "kubernetes") × (getenv "GRPC_PORT" ≢ ""))
        ⊎ (getenv "GRPC_PORT" ≡ "50051"))
unfolding listen_port
listen_port-dialled_iff getenv = elim (string_eq.dec (getenv "DEPLOYMENT_TYPE") "kubernetes") [
  | yes k8s ↦ elim (string_eq.dec (getenv "GRPC_PORT") "") [
    | yes unset ↦ (
      λ h. inr (ground (arith, h)),
      λ h. elim h [ inl (_, set) ↦ absurd (set unset) | inr e ↦ ground (arith, e) ],
    )
    | no set ↦ (λ h. inl (k8s, set), λ h. ground arith)
  ]
  | no local ↦ (
    λ h. inr (ground (arith, h)),
    λ h. elim h [ inl (k8s, _) ↦ absurd (local k8s) | inr e ↦ ground (arith, e) ],
  )
]

read_all-names : (names acc : List String) → read_all (map ok names) acc ≡ ok (acc ++ names)
unfolding read_all
read_all-names [] acc = ap ok (sym (append-nil acc))
read_all-names (n ∷ names) acc =
    read_all-names names (acc ++ n ∷ []) ∙ ap ok (append_assoc acc (n ∷ []) names)

-- An insertion without an error appends a document that decodes to the name.
pub record IsLawful (U : Users) : Type 0 where
  pub names : U.State → List String
  pub finds : (s : U.State) → U.find s ≡ ok (map ok (names s))
  pub inserts :
      (name : String) (s : U.State)
      → (U.insert_one name s).0 ≡ none
      → names (U.insert_one name s).1 ≡ names s ++ name ∷ []

module _ (U : Users) (L : IsLawful U) (dial : String → Option Error) where
  -- Requests to set names, one after the other.
  abbrev pub set_usernames : String → List String → U.State → List Reply × U.State
  set_usernames address [] s = ([], s)
  set_usernames address (n ∷ ns) s =
      let here = set_username_handler U dial (some n) address s in
      let rest = set_usernames address ns here.1 in (here.0 ∷ rest.0, rest.1)

  -- Each name of a run is inserted without an error.
  abbrev pub AllInserted : List String → U.State → Type 0
  AllInserted [] s = Unit
  AllInserted (n ∷ ns) s = ((U.insert_one n s).0 ≡ none) × AllInserted ns (U.insert_one n s).1

  set_usernames_lem :
      (address : String) (ns : List String) (s : U.State)
      → dial address ≡ none
      → AllInserted ns s
      → ((set_usernames address ns s).0 ≡ map (λ _. message 200 "User saved successfully") ns)
        × (L.names (set_usernames address ns s).1 ≡ L.names s ++ ns)
  unfolding set_username_handler set_user
  set_usernames_lem address [] s d h = (refl, sym (append-nil (L.names s)))
  set_usernames_lem address (n ∷ ns) s d (here, h) =
      let (replies, all) = set_usernames_lem address ns (U.insert_one n s).1 d h in
      (
        rw (d, here, replies) refl,
        rw d (all ∙ (rw (L.inserts n s here) (append_assoc (L.names s) (n ∷ []) ns))),
      )

  -- In the sample, over a collection that appends what it inserts, where both addresses can be
  -- dialled and each of a run of names is inserted, every request is answered that its name is
  -- saved, and the list that is then answered is that of before with the names behind it, in
  -- order.
  pub get_usernames-set_usernames :
      (address grpc_port version : String) (ns : List String) (s : U.State)
      → dial address ≡ none
      → dial ("grpc-service:" <> grpc_port) ≡ none
      → AllInserted ns s
      → let (replies, t) = set_usernames address ns s in
        (replies ≡ map (λ _. message 200 "User saved successfully") ns)
        × (get_usernames_handler U dial grpc_port version address t
            ≡ users 200 (L.names s ++ ns) version)
  unfolding get_usernames_handler get_users
  get_usernames-set_usernames address grpc_port version ns s d d' h =
      let (replies, all) = set_usernames_lem address ns s d h in
      let t = (set_usernames address ns s).1 in
      (replies, rw (d', L.finds t, read_all-names (L.names t) [], all) refl)
