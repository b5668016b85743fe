-- ===== src/Config/Env/Laws.antt =====
-- What the prefixes look like, and that the table has one for each file.
use openim_project_template.Base.{
  ℕ, ◌<◌, String, ◌≡◌, ◌≢◌, ◌⊎◌, refl, ◌∙◌, nat_eq, string_eq, if◌then◌else◌, true, false, none,
  some, List, [], ◌∷◌, ◌++◌, map, All, arith, contains, length, length-append,
}
use openim_project_template.Base.Dict.{Dict, lookup, insert, lookup-insert, lookup-nil}
use openim_project_template.Base.Text.{codes}
use openim_project_template.Config.Env.{
  file_names, env_key, fill, config_env_prefix_map, upper, replace_char, trim_suffix, same,
  env_prefix,
}

-- No hyphen, and no lower case letter.
abbrev IsEnvChar : ℕ → Type 0
IsEnvChar c = (c ≢ b'-') × ((c < b'a') ⊎ (b'z' < c))

env_chars : (s : List ℕ) → All IsEnvChar (map upper (map (replace_char b'-' b'_') s))
env_chars [] = tt
env_chars (c ∷ s) = ((ground arith, ground arith), env_chars s)

-- The prefix of any file name has no hyphen and no lower case letter of ASCII.
env_key-IsEnvChar : (name : String) → All IsEnvChar (env_key name)
unfolding env_key
env_key-IsEnvChar name =
    env_chars
      (codes env_prefix ++ trim_suffix (trim_suffix (codes name) (codes ".yml")) (codes ".yaml"))

same-longer : (s t : List ℕ) → length t < length s → same s t ≡ false
same-longer [] [] h = absurd (omega arith)
same-longer [] (d ∷ t) h = refl
same-longer (c ∷ s) [] h = refl
same-longer (c ∷ s) (d ∷ t) h = ground (arith, same-longer s t)

same_refl : (s : List ℕ) → same s s ≡ true
same_refl [] = refl
same_refl (c ∷ s) = ground (arith, same_refl s)

trim_suffix-append : (s suffix : List ℕ) → suffix ≢ [] → trim_suffix (s ++ suffix) suffix ≡ s
unfolding trim_suffix
trim_suffix-append [] [] h = refl
trim_suffix-append [] (d ∷ suffix) h = ground (arith, same_refl (d ∷ suffix))
trim_suffix-append (c ∷ s) suffix h = ground (
  arith,
  trim_suffix-append s suffix h,
  same-longer (c ∷ s ++ suffix) suffix,
  length-append s suffix,
)

-- A file name `base.yml`, where `base` does not itself end in `.yaml`, has the prefix `IMENV_`
-- and `base`, in upper case and with hyphens turned into underscores.
env_key_yml :
    (name : String) (base : List ℕ)
    → codes name ≡ base ++ codes ".yml"
    → trim_suffix base (codes ".yaml") ≡ base
    → env_key name ≡ map upper (map (replace_char b'-' b'_') (codes env_prefix ++ base))
unfolding env_key
env_key_yml name base h plain = rw (h, trim_suffix-append base (codes ".yml") (λ e. cc), plain)

lookup-fill :
    (names : List String) (m : Dict String (List ℕ)) (k : String)
    → lookup k (fill names m) ≡ (if contains names k then some (env_key k) else lookup k m)
unfolding fill
lookup-fill [] m k = refl
lookup-fill (name ∷ names) m k =
    lookup-fill names (insert name (env_key name) m) k
    ∙ ground (arith, lookup-insert k name (env_key name) m)

-- The table of prefixes has one for exactly the seven configuration files, the one that its name
-- gives.
pub lookup-config_env_prefix_map :
    (k : String)
    → lookup k config_env_prefix_map ≡ (if contains file_names k then some (env_key k) else none)
unfolding config_env_prefix_map
lookup-config_env_prefix_map k = lookup-fill file_names [] k ∙ rw lookup-nil
