-- ===== src/Tests/Data.antt =====
-- What the runs are on: users, a service, a cache and what encodes its values.
use openim_project_template.Base.{
  String, ◌≡◌, refl, ◌==◌, string_eq, if◌then◌else◌, Bool, true, false, Option, none, some,
  Option-cases, contains, inl, inr, List, [], ◌∷◌, Res, ok, err, arith,
}
use openim_project_template.Base.Dict.{Dict, lookup, insert}
use openim_project_template.Errors.{Error, new}
use openim_project_template.Cache.Coherence.{IsGone, Deletes}
use openim_project_template.User.{UserInfo}
use openim_project_template.User.Storage.Memory.{memory}
use openim_project_template.User.Server.{Server}
use openim_project_template.Cache.Fetch.{Rocks, Fetched, Codec}
use openim_project_template.Cache.Fetch.Laws.{IsLawful}

abbrev pub alice : UserInfo
alice = record { user_id = "a1"; nickname = "Alice" }

abbrev pub bob : UserInfo
bob = record { user_id = "b2"; nickname = "Bob" }

abbrev pub colon : UserInfo
colon = record { user_id = "c:3"; nickname = "Carol" }

abbrev pub two_users : List UserInfo
two_users = alice ∷ bob ∷ []

abbrev pub empty_server : Server memory
empty_server = record { db = []; registered = 0 }

abbrev fetched : Option String → Res String → Fetched
fetched (some v) r = record { called = false; result = ok v }
fetched none r = record { called = true; result = r }

abbrev stored : Option String → String → Res String → Dict String String → Dict String String
stored none key (ok v) s = insert key v s
stored _ key r s = s

-- A cache in memory, in which no entry expires.
abbrev pub memory_cache : Rocks
memory_cache = record {
  State = Dict String String;
  fetch = λ key expire r s. (fetched (lookup key s) r, stored (lookup key s) key r s);
}

called_answers :
    (o : Option String) (r : Res String) → (fetched o r).called ≡ true → (fetched o r).result ≡ r
called_answers none r h = refl
called_answers (some v) r h = absurd (ground arith)

pub memory_cache-IsLawful : IsLawful memory_cache
memory_cache-IsLawful = record { called = λ key expire r s. called_answers (lookup key s) r }

-- A deletion from the cache in memory, which succeeds.
abbrev without : List String → Dict String String → Dict String String
without keys [] = []
without keys ((k, v) ∷ s) = if contains keys k then without keys s else (k, v) ∷ without keys s

abbrev pub forget : List String → Dict String String → Option Error × Dict String String
forget keys s = (none, without keys s)

lookup-without :
    (keys : List String) (key : String) (s : Dict String String)
    → contains keys key ≡ true
    → lookup key (without keys s) ≡ none
unfolding lookup
lookup-without keys key [] h = refl
lookup-without keys key ((k, v) ∷ s) h = elim (string_eq.dec key k) [
  | yes e ↦ ground (arith, e, h, lookup-without keys key s h)
  | no other ↦ ground (arith, other, lookup-without keys key s h)
]

absent-without :
    (keys : List String) (key : String) (s : Dict String String)
    → lookup key s ≡ none
    → lookup key (without keys s) ≡ none
unfolding lookup
absent-without keys key [] h = refl
absent-without keys key ((k, v) ∷ s) h = elim (string_eq.dec key k) [
  | yes e ↦ absurd (ground (arith, e, h))
  | no other ↦ ground (arith, other, h, absent-without keys key s)
]

calls_absent : (o : Option String) (r : Res String) → o ≡ none → (fetched o r).called ≡ true
calls_absent none r h = refl
calls_absent (some v) r h = absurd (ground (arith, h))

absent-IsGone :
    (key : String) (s : Dict String String) → IsGone memory_cache key s → lookup key s ≡ none
absent-IsGone key s h = elim (Option-cases (lookup key s)) [
  | inl absent ↦ absent
  | inr (v, there) ↦ absurd (ground (arith, there, h 0 (ok "")))
]

pub forget-Deletes : Deletes memory_cache forget
forget-Deletes = record {
  gone = λ keys key s h _ expire r. calls_absent _ r (lookup-without keys key s h);
  stays_gone =
      λ keys key s h expire r. calls_absent _ r (absent-without keys key s (absent-IsGone key s h));
}

abbrev text_of : Bool → String
text_of true = "true"
text_of false = "false"

-- The encoding of truth values.
abbrev pub bool_codec : Codec Bool
bool_codec = record {
  marshal = λ b. ok (text_of b);
  unmarshal =
      λ v. if v == "true" then ok true else if v == "false" then ok false else err (new "syntax");
}
