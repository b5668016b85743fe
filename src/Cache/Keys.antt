-- ===== src/Cache/Keys.antt =====
-- The keys under which users are cached, pkg/common/cachekey/user.go.
use Prim.Native.String.{String, [], ◌∷◌, ◌++◌}
use Prim.Native.Char.{code}
use mathlib.Core.Path.{◌≡◌, ap}
use mathlib.Core.List
use mathlib.Core.Logic.{◌≢◌, ◌↔◌}
use native.Mathlib.Omega.{arith}
use openim_project_template.Base.Text.{codes}
use text.Mathlib.TextLemmas.{nil-append, cons-append}

abbrev user_info_prefix : String
user_info_prefix = "USER_INFO:"

abbrev user_global_recv_msg_opt_prefix : String
user_global_recv_msg_opt_prefix = "USER_GLOBAL_RECV_MSG_OPT_KEY:"

-- `GetUserInfoKey`
pub get_user_info_key : String → String
get_user_info_key user_id = user_info_prefix ++ user_id

-- `GetUserGlobalRecvMsgOptKey`
pub get_user_global_recv_msg_opt_key : String → String
get_user_global_recv_msg_opt_key user_id = user_global_recv_msg_opt_prefix ++ user_id

tail_text : String → String
tail_text [] = []
tail_text (c ∷ s) = s

append-cancel : (p s t : String) → p ++ s ≡ p ++ t → s ≡ t
unfolding tail_text
append-cancel [] s t h = simp nil-append at h
append-cancel (c ∷ p) s t h = append-cancel p s t (ap tail_text (simp cons-append at h))

codes-append : (s t : String) → codes (s ++ t) ≡ List.◌++◌ (codes s) (codes t)
codes-append [] t = rw nil-append
codes-append (c ∷ s) t = rw cons-append (ap (λ r. List.◌∷◌ (code c) r) (codes-append s t))

-- Each kind of cache key tells its users apart, and no key of one kind is a key of the other.
pub keys_apart :
    (j k : String)
    → ((get_user_info_key j ≡ get_user_info_key k) ↔ (j ≡ k))
      × ((get_user_global_recv_msg_opt_key j ≡ get_user_global_recv_msg_opt_key k) ↔ (j ≡ k))
      × (get_user_info_key j ≢ get_user_global_recv_msg_opt_key k)
unfolding get_user_info_key get_user_global_recv_msg_opt_key
keys_apart j k = (
  (append-cancel _ j k, ap (λ s. user_info_prefix ++ s)),
  (append-cancel _ j k, ap (λ s. user_global_recv_msg_opt_prefix ++ s)),
  λ h. ground (
    arith,
    ap codes h,
    codes-append user_info_prefix j,
    codes-append user_global_recv_msg_opt_prefix k,
  ),
)
