-- ===== src/User/Server/Valid.antt =====
-- What makes a registration request acceptable, stated apart from the handler's code.
use openim_project_template.Base.{
  ℕ, String, ◌≡◌, ◌≢◌, refl, false, string_eq, nat_eq, List, [], ◌∷◌, map, All, arith, ok, ◌++◌,
}
use openim_project_template.Base.Text.{codes, contains_char}
use openim_project_template.Tools.{has_repeat}
use openim_project_template.User.{UserInfo, to_model}
use openim_project_template.User.Storage.{ids}
use openim_project_template.User.Server.{check_ids}

abbrev pub info_ids : List UserInfo → List String
info_ids = map (λ u. u.user_id)

-- Not empty, and no character is a colon.
abbrev pub IsValidId : String → Type 0
IsValidId k = (k ≢ "") × All (λ c. c ≢ b':') (codes k)

-- There is a user, ids are distinct, and each is valid.
pub record IsRegistrable (us : List UserInfo) : Type 0 where
  pub some_user : us ≢ []
  pub distinct : has_repeat (info_ids us) ≡ false
  pub valid : All IsValidId (info_ids us)

contains_char-false : (c : ℕ) (s : String) → contains_char c s ≡ false → All (λ d. d ≢ c) (codes s)
unfolding contains_char
contains_char-false c String.[] h = tt
contains_char-false c (String.◌∷◌ d s) h = (ground arith, contains_char-false c s (ground arith))

contains_char-of_All : (c : ℕ) (s : String) → All (λ d. d ≢ c) (codes s) → contains_char c s ≡ false
unfolding contains_char
contains_char-of_All c String.[] h = refl
contains_char-of_All c (String.◌∷◌ d s) h = ground (arith, contains_char-of_All c s h.1)

pub check_ids-ok :
    (us : List UserInfo) (acc : List String)
    → All IsValidId (info_ids us)
    → (r : List String) × (check_ids us acc ≡ ok r)
unfolding check_ids
check_ids-ok [] acc h = (acc, refl)
check_ids-ok (u ∷ us) acc ((ne, nc), h) =
    let (r, done) = check_ids-ok us (acc ++ u.user_id ∷ []) h in
    (r, ground (arith, done, contains_char-of_All b':' u.user_id nc))

pub valid-of_check_ids :
    (us : List UserInfo) (acc r : List String)
    → check_ids us acc ≡ ok r
    → All IsValidId (info_ids us)
unfolding check_ids
valid-of_check_ids [] acc r h = tt
valid-of_check_ids (u ∷ us) acc r h =
    ground
      (arith, valid-of_check_ids us (acc ++ u.user_id ∷ []) r, contains_char-false b':' u.user_id)

pub ids-map-to_model : (us : List UserInfo) → ids (map to_model us) ≡ info_ids us
ids-map-to_model [] = refl
ids-map-to_model (u ∷ us) = rw (ids-map-to_model us)
