-- ===== src/User/Directory.antt =====
-- What the user service (internal/rpc/user/user.go) promises, apart from collections, caches and
-- documents: a directory that says which user has an id, and the steps that a request may take.
use openim_project_template.Base.{
  String, ◌≡◌, sym, Any-mono, ◌⊎◌, inl, inr, Option, none, some, List, [], ◌∷◌, All, Any, string_eq,
  arith, ◌∙◌,
}
use openim_project_template.Errors.{Error, coded, err_args}
use openim_project_template.User.{UserInfo}
use openim_project_template.User.Server.Valid.{IsRegistrable}

abbrev pub Directory : Type 0
Directory = String → Option UserInfo

pub data Request : Type 0 where
  register : List UserInfo → Request
  lookup : List String → Request

pub data Answer : Type 0 where
  done : Answer
  users : List UserInfo → Answer
  fault : Error → Answer
  crash : Answer

-- An id keeps its user, or had none and has one of `us`.
abbrev pub Grows : Directory → List UserInfo → Directory → Type 0
Grows d us d' =
    (k : String) → (d' k ≡ d k) ⊎ ((d k ≡ none) × Any (λ u. (u.user_id ≡ k) × (d' k ≡ some u)) us)

pub data Step (d : Directory) : Request → Answer → Directory → Type 0 where
  -- All of the users are new, and all are there afterwards.
  registers :
      {us : List UserInfo} {d' : Directory}
      → IsRegistrable us
      → All (λ u. d u.user_id ≡ none) us
      → All (λ u. d' u.user_id ≡ some u) us
      → Grows d us d'
      → Step d (register us) done d'
  refuses :
      {us : List UserInfo} {m : String}
      → ¬ IsRegistrable us
      → Step d (register us) (fault (coded err_args m)) d
  -- An insertion that fails may have put some of the users.
  fails :
      {us : List UserInfo} {e : Error} {d' : Directory}
      → IsRegistrable us
      → Grows d us d'
      → Step d (register us) (fault e) d'
  finds :
      {k : String} {u : UserInfo}
      → u.user_id ≡ k
      → d k ≡ some u
      → Step d (lookup (k ∷ [])) (users (u ∷ [])) d
  misses : {k : String} {e : Error} → d k ≡ none → Step d (lookup (k ∷ [])) (fault e) d
  -- More than one id is never answered.
  declines :
      {j k : String} {ks : List String} {e : Error} → Step d (lookup (j ∷ k ∷ ks)) (fault e) d
  breaks : Step d (lookup []) crash d

-- A run of requests with their answers.
pub data Run : Directory → List Request → List Answer → Directory → Type 0 where
  over : {d : Directory} → Run d [] [] d
  goes :
      {d d' d'' : Directory} {r : Request} {rs : List Request} {a : Answer} {as' : List Answer}
      → Step d r a d'
      → Run d' rs as' d''
      → Run d (r ∷ rs) (a ∷ as') d''

Grows-keeps :
    {d d' : Directory} (us : List UserInfo) {k : String} {u : UserInfo}
    → Grows d us d'
    → d k ≡ some u
    → d' k ≡ some u
Grows-keeps us {k = k} g there = elim (g k) [
  | inl same ↦ same ∙ there
  | inr (absent, _) ↦ absurd (ground (arith, there, absent))
]

pub Step-keeps :
    {d d' : Directory} {r : Request} {a : Answer} {k : String} {u : UserInfo}
    → Step d r a d'
    → d k ≡ some u
    → d' k ≡ some u
Step-keeps (registers {us = us} _ _ _ g) there = Grows-keeps us g there
Step-keeps (refuses _) there = there
Step-keeps (fails {us = us} _ g) there = Grows-keeps us g there
Step-keeps (finds _ _) there = there
Step-keeps (misses _) there = there
Step-keeps declines there = there
Step-keeps breaks there = there

-- A user that is in the directory stays there as it is, over any run.
pub Run-keeps :
    {d d' : Directory} {rs : List Request} {as' : List Answer} {k : String} {u : UserInfo}
    → Run d rs as' d'
    → d k ≡ some u
    → d' k ≡ some u
Run-keeps over there = there
Run-keeps (goes step run) there = Run-keeps run (Step-keeps step there)

-- The request registers the user.
abbrev pub Registers : UserInfo → Request → Type 0
Registers u (register us) = Any (λ v. v ≡ u) us
Registers u (lookup ks) = ⊥

Grows-origin :
    {d d' : Directory} (us : List UserInfo) {k : String} {u : UserInfo}
    → Grows d us d'
    → d' k ≡ some u
    → (d k ≡ some u) ⊎ Any (λ v. v ≡ u) us
Grows-origin us {k = k} {u = u} g there = elim (g k) [
  | inl same ↦ inl (sym same ∙ there)
  | inr (_, new) ↦ inr (Any-mono _ (λ v. v ≡ u) us (λ v (_, is). ground (arith, is, there)) new)
]

Step-origin :
    {d d' : Directory} {r : Request} {a : Answer} {k : String} {u : UserInfo}
    → Step d r a d'
    → d' k ≡ some u
    → (d k ≡ some u) ⊎ Registers u r
Step-origin (registers {us = us} _ _ _ g) there = Grows-origin us g there
Step-origin (refuses _) there = inl there
Step-origin (fails {us = us} _ g) there = Grows-origin us g there
Step-origin (finds _ _) there = inl there
Step-origin (misses _) there = inl there
Step-origin declines there = inl there
Step-origin breaks there = inl there

-- A user that is in the directory was there before, or some request of the run registers it.
pub Run-origin :
    {d d' : Directory} (rs : List Request) {as' : List Answer} {k : String} {u : UserInfo}
    → Run d rs as' d'
    → d' k ≡ some u
    → (d k ≡ some u) ⊎ Any (Registers u) rs
Run-origin [] over there = inl there
Run-origin (r ∷ rs) (goes step run) there = elim (Run-origin rs run there) [
  | inl before ↦ elim (Step-origin step before) [ inl first ↦ inl first | inr new ↦ inr (inl new) ]
  | inr new ↦ inr (inr new)
]
