-- ===== src/Routes/Laws.antt =====
-- Which handlers a request to the API (internal/api/router.go) runs through.
use openim_project_template.Base.{
  String, ◌≡◌, ◌≢◌, refl, sym, ◌==◌, ◌&&◌, string_eq, if◌then◌else◌, Option, none, some, List, [],
  ◌∷◌, arith, Any, Bool-cases, inl, inr, ◌∙◌,
}
use openim_project_template.Routes.{
  Handler, recovery, cors_handler, gin_parse_operation_id, gin_parse_token, user_register,
  get_users_public_info, measures, whitelist, Gin, IsLawful, new_gin_router, router_with_metrics,
}

abbrev pub behind : (secret : String) → Handler → List Handler
behind secret h =
    recovery ∷ cors_handler ∷ gin_parse_operation_id ∷ gin_parse_token secret whitelist ∷ h ∷ []

module _ (G : Gin) (L : IsLawful G) (secret : String) where
  abbrev base : G.Engine
  base =
      G.use_
        (recovery ∷ cors_handler ∷ gin_parse_operation_id ∷ gin_parse_token secret whitelist ∷ [])
        G.new

  handlers-base : (m p : String) → G.handlers base m p ≡ none
  handlers-base m p = L.handlers-use_ _ G.new m p ∙ L.handlers-new m p

  added-base :
      L.added base
      ≡ recovery ∷ cors_handler ∷ gin_parse_operation_id ∷ gin_parse_token secret whitelist ∷ []
  added-base = L.added-use_ _ G.new ∙ rw L.added-new refl

  abbrev with_register : G.Engine
  with_register = G.post (G.group "/user" base) "/user_register" user_register base

  handlers-with_register :
      (m p : String)
      → G.handlers with_register m p ≡ (
          if m == "POST" && p == "/user/user_register"
          then some (behind secret user_register)
          else none)
  handlers-with_register m p =
      L.handlers-post "/user" "/user_register" base base user_register m p (handlers-base _ _)
      ∙ rw (added-base, handlers-base m p) refl

  -- With gin as documented, the router of the API answers POST on /user/user_register and
  -- /user/get_users_info and nothing else, each behind recovery, the CORS handler, the operation
  -- id and the token check, in this order, with its own handler last.
  pub handlers-new_gin_router :
      (m p : String)
      → G.handlers (new_gin_router G secret) m p ≡ (
          if m == "POST" && p == "/user/get_users_info"
          then some (behind secret get_users_public_info)
          else if m == "POST" && p == "/user/user_register"
          then some (behind secret user_register)
          else none)
  unfolding new_gin_router
  handlers-new_gin_router m p =
      L.handlers-post "/user" "/get_users_info" base with_register get_users_public_info m p
        (handlers-with_register _ _ ∙ unfold string_eq in refl)
      ∙ rw (added-base, handlers-with_register m p) refl

  not_measured :
      (h : Handler)
      → h ≢ measures
      → (hs : List Handler) → some (behind secret h) ≡ some hs
      → ¬ Any (λ g. g ≡ measures) hs
  not_measured h other hs e among = out (rw (sym (some_inj e)) at among)
    where
      some_inj : {x y : List Handler} → ◌≡◌ {A = Option (List Handler)} (some x) (some y) → x ≡ y
      some_inj p = cc

      out : ¬ Any (λ g. g ≡ measures) (behind secret h)
      out (inl p) = absurd (cc)
      out (inr (inl p)) = absurd (cc)
      out (inr (inr (inl p))) = absurd (cc)
      out (inr (inr (inr (inl p)))) = absurd (cc)
      out (inr (inr (inr (inr (inl p))))) = other p
      out (inr (inr (inr (inr (inr p))))) = p

  -- With gin as documented, no request that the router of the API has a route for runs through
  -- the handler that measures it, although the metrics are on: the handler is added after the
  -- routes.
  pub router_with_metrics_unmeasured :
      (m p : String) (hs : List Handler)
      → G.handlers (router_with_metrics G secret) m p ≡ some hs
      → ¬ Any (λ h. h ≡ measures) hs
  unfolding router_with_metrics
  router_with_metrics_unmeasured m p hs h =
      let e : G.handlers (new_gin_router G secret) m p ≡ some hs =
        sym (L.handlers-use_ (measures ∷ []) (new_gin_router G secret) m p) ∙ h in
      elim (Bool-cases (m == "POST" && p == "/user/get_users_info")) [
        | inl yes_ ↦
            not_measured get_users_public_info (λ q. absurd (cc)) hs
              (ground (arith, e, handlers-new_gin_router m p, yes_))
        | inr no_ ↦ elim (Bool-cases (m == "POST" && p == "/user/user_register")) [
          | inl yes_ ↦
              not_measured user_register (λ q. absurd (cc)) hs
                (ground (arith, e, handlers-new_gin_router m p, no_, yes_))
          | inr no_' ↦ absurd (ground (arith, e, handlers-new_gin_router m p, no_, no_'))
        ]
      ]
