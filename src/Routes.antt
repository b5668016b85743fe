-- ===== src/Routes.antt =====
-- The routes of the API, internal/api/router.go and user.go. The library gin is the record `Gin`,
-- and a2r the record `A2r`; a handler is known by the function that makes it.
pub mod Laws
pub mod Http
pub mod Posts
use openim_project_template.Base.{
  String, ◌<>◌, ◌≡◌, ◌==◌, ◌&&◌, ◌++◌, string_eq, if◌then◌else◌, Option, none, some, List, [], ◌∷◌,
  Act, ok,
}
use openim_project_template.User.{UserInfo, check_user_register, check_get_designate_users}

-- `whitelist`
abbrev whitelist : List String
whitelist = "" ∷ []

pub data Handler : Type 0 where
  -- `gin.Recovery()`, `mw.CorsHandler()`, `mw.GinParseOperationID()`
  recovery cors_handler gin_parse_operation_id : Handler
  -- `mw.GinParseToken(secretKey(secret), whitelist)`
  gin_parse_token : (secret : String) → List String → Handler
  -- the methods of `UserApi`
  user_register get_users_public_info : Handler
  -- `p.HandlerFunc()` of the metrics
  measures : Handler

pub record Gin : Type 1 where
  pub Engine : Type 0
  pub Group : Type 0
  -- `gin.New()`
  pub new : Engine
  -- `r.Use(handlers...)`
  pub use_ : List Handler → Engine → Engine
  -- `r.Group(path)`
  pub group : String → Engine → Group
  -- `g.POST(path, handler)`, on the engine of the group
  pub post : Group → String → Handler → Engine → Engine
  -- the handlers that a request runs through, by its method and path
  pub handlers : Engine → String → String → Option (List Handler)

-- A route runs through the handlers that its group had when the group was made, and then its own. A
-- later `Use` has no part in it.
pub record IsLawful (G : Gin) : Type 0 where
  -- what `Use` has added so far
  pub added : G.Engine → List Handler
  pub added-new : added G.new ≡ []
  pub added-use_ : (hs : List Handler) (e : G.Engine) → added (G.use_ hs e) ≡ added e ++ hs
  pub handlers-new : (m p : String) → G.handlers G.new m p ≡ none
  pub handlers-use_ :
      (hs : List Handler) (e : G.Engine) (m p : String)
      → G.handlers (G.use_ hs e) m p ≡ G.handlers e m p
  pub handlers-post :
      (base path : String) (made e : G.Engine) (h : Handler) (m p : String)
      → G.handlers e "POST" (base <> path) ≡ none
      → G.handlers (G.post (G.group base made) path h e) m p ≡ (
          if m == "POST" && p == base <> path
          then some (added made ++ h ∷ [])
          else G.handlers e m p)

module _ (G : Gin) where
  -- `newGinRouter`, behind the connection of `NewUser`
  unfoldable pub new_gin_router : (secret : String) → G.Engine
  new_gin_router secret =
      let r =
        G.use_
          (recovery ∷ cors_handler ∷ gin_parse_operation_id ∷ gin_parse_token secret whitelist ∷ [])
          G.new in
      let user_router_group = G.group "/user" r in
      let r₁ = G.post user_router_group "/user_register" user_register r in
      G.post user_router_group "/get_users_info" get_users_public_info r₁

  -- The router of `Start` once the metrics are on: `p.Use(router)` comes after the routes, and the
  -- metrics themselves are served on an engine of their own.
  unfoldable pub router_with_metrics : (secret : String) → G.Engine
  router_with_metrics secret = G.use_ (measures ∷ []) (new_gin_router secret)
