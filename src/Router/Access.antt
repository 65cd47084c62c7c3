-- ===== src/Router/Access.antt =====
-- Which requests reach a handler through Configure of protocube/api/router/router.go.
use sls.Shared.{
  Option, none, some, List, [], ◌∷◌, ◌++◌, ◌≡◌, refl, sym, ap, ◌∙◌, subst, inl, inr, All, Among,
  All-append,
}
use sls.Shared.Text.{Text, codes}
use sls.Router.{Method, Handler, Setup, Context, handled, app_admin, node_scope}
use sls.Router.Middleware.{
  HandlerFunc, attach_request_id, set_access_control_headers, rate_limiter, require_authorization,
  server_exists, node_exists, blueprint_exists,
}
use sls.Router.Routes.{
  Gin, IsGin, Route, router, open_routes, protected_routes, blueprint_routes, server_routes,
  registration_routes, node_routes, internal_routes, configure, run_chain, no_route, answer_route,
  dispatch,
}
use sls.Router.Needs.{
  needs, IsGranted, chain_of, first_chain, chain-IsGranted, first_chain-next, not_handled,
}

All-Among : {A : Type 0} (P : A → Type 0) (xs : List A) {a : A} → Among a xs → All P xs → P a
All-Among P [] m all = absurd m
All-Among P (x ∷ xs) (inl e) (p, all) = subst P (sym e) p
All-Among P (x ∷ xs) (inr m) (p, all) = All-Among P xs m all

module _ {S N B K : Type 0} (setup : Setup S N B K) (gin : Gin (HandlerFunc setup))
    (laws : IsGin (HandlerFunc setup) gin) where
  -- A route gets the middlewares that its handler needs, behind those of all routes.
  abbrev IsRight : Route gin.Group → Type 0
  IsRight r = gin.handlers r.group ≡ first_chain setup ++ chain_of setup (needs r.handler)

  router-first : gin.handlers (router setup gin) ≡ first_chain setup
  router-first =
      laws.use_behind _ (rate_limiter setup ∷ [])
      ∙ ap (λ fs. fs ++ (rate_limiter setup ∷ []))
          (laws.use_behind gin.new (attach_request_id setup ∷ set_access_control_headers setup ∷ [])
            ∙ ap (λ fs. fs ++ (attach_request_id setup ∷ set_access_control_headers setup ∷ []))
                laws.new_none)

  group-behind :
      (g : gin.Group) (fs : List (HandlerFunc setup)) (path : Text) (gs : List (HandlerFunc setup))
      → gin.handlers g ≡ fs
      → gin.handlers (gin.use_next (gin.group g path) gs) ≡ fs ++ gs
  group-behind g fs path gs e =
      laws.use_behind (gin.group g path) gs ∙ ap (λ hs. hs ++ gs) (laws.group_same g path ∙ e)

  one_group :
      (path : Text) (gs : List (HandlerFunc setup))
      → gin.handlers (gin.use_next (gin.group (router setup gin) path) gs) ≡ first_chain setup ++ gs
  one_group path gs = group-behind (router setup gin) (first_chain setup) path gs router-first

  two_groups :
      (path below : Text) (gs hs : List (HandlerFunc setup))
      → gin.handlers
          (gin.use_next (gin.group (gin.use_next (gin.group (router setup gin) path) gs) below) hs)
        ≡ (first_chain setup ++ gs) ++ hs
  two_groups path below gs hs =
      group-behind (gin.use_next (gin.group (router setup gin) path) gs) (first_chain setup ++ gs)
        below hs (one_group path gs)

  open_routes-IsRight : All IsRight (open_routes setup gin)
  open_routes-IsRight = (router-first, (router-first, tt))

  protected_routes-IsRight : All IsRight (protected_routes setup gin)
  protected_routes-IsRight =
      let e = one_group (codes "/api") (require_authorization setup app_admin ∷ []) in
      (e, (e, (e, (e, (e, (e, (e, (e, (e, tt)))))))))

  blueprint_routes-IsRight : All IsRight (blueprint_routes setup gin)
  blueprint_routes-IsRight =
      let e =
        one_group (codes "/api/blueprints/:blueprint")
          (require_authorization setup node_scope ∷ blueprint_exists setup ∷ []) in
      (e, tt)

  server_routes-IsRight : All IsRight (server_routes setup gin)
  server_routes-IsRight =
      let e =
        one_group (codes "/api/servers/:server")
          (require_authorization setup app_admin ∷ server_exists setup ∷ []) in
      (e, (e, (e, (e, (e, (e, (e, (e, (e, (e, (e, tt)))))))))))

  registration_routes-IsRight : All IsRight (registration_routes setup gin)
  registration_routes-IsRight =
      let e = one_group (codes "/api/nodes/:node") (require_authorization setup node_scope ∷ []) in
      (e, tt)

  node_routes-IsRight : All IsRight (node_routes setup gin)
  node_routes-IsRight =
      let e =
        one_group (codes "/api/nodes/:node")
          (require_authorization setup app_admin ∷ node_exists setup ∷ []) in
      (e, (e, (e, tt)))

  internal_routes-IsRight : All IsRight (internal_routes setup gin)
  internal_routes-IsRight =
      let of_node = require_authorization setup node_scope ∷ node_exists setup ∷ [] in
      let e = one_group (codes "/api/nodes/:node/internal") of_node in
      let f =
        two_groups (codes "/api/nodes/:node/internal") (codes "/servers/:server") of_node
          (server_exists setup ∷ []) in
      let g =
        two_groups (codes "/api/nodes/:node/internal") (codes "/event/servers/:server") of_node
          (server_exists setup ∷ []) in
      (e, (e, (e, (f, (f, (g, (g, (g, (g, tt)))))))))

  configure-IsRight : All IsRight (configure setup gin)
  unfolding configure
  configure-IsRight =
      let from_node = node_routes setup gin ++ internal_routes setup gin in
      let from_registration = registration_routes setup gin ++ from_node in
      let from_server = server_routes setup gin ++ from_registration in
      let from_blueprint = blueprint_routes setup gin ++ from_server in
      let from_protected = protected_routes setup gin ++ from_blueprint in
      All-append IsRight (open_routes setup gin) from_protected open_routes-IsRight (
        All-append IsRight (protected_routes setup gin) from_blueprint protected_routes-IsRight (
          All-append IsRight (blueprint_routes setup gin) from_server blueprint_routes-IsRight (
            All-append IsRight (server_routes setup gin) from_registration server_routes-IsRight (
              All-append IsRight (registration_routes setup gin) from_node
                registration_routes-IsRight
                (All-append IsRight (node_routes setup gin) (internal_routes setup gin)
                  node_routes-IsRight internal_routes-IsRight)))))

  -- With any gin whose groups take the middlewares of the group they are made of and that finds only
  -- routes that are registered, for any request: if a handler is called, the limiter allowed the
  -- request, its method is not OPTIONS, the caller has shown as a bearer a token that the key service
  -- accepts, with a key that has the scope the handler needs and stands in the context, and each of the
  -- node, the server and the blueprint that the handler extracts is the one that the path names, and
  -- stands in the context. Only the banner and the list of the nodes need no key.
  pub dispatch-IsGranted :
      (find : List (Route gin.Group) → Method → Text → Option (Route gin.Group))
      → ((method : Method) (path : Text) (r : Route gin.Group)
          → find (configure setup gin) method path ≡ some r
          → Among r (configure setup gin))
      → (c : Context S N B K) (h : Handler) (d : Context S N B K)
      → dispatch setup gin find c ≡ handled h d
      → IsGranted setup (needs h) c d
  unfolding dispatch
  dispatch-IsGranted find registers c h d e =
      by_route (find (configure setup gin) c.method c.path) refl e
    where
      by_route :
          (o : Option (Route gin.Group))
          → find (configure setup gin) c.method c.path ≡ o
          → answer_route setup gin o c ≡ handled h d
          → IsGranted setup (needs h) c d
      by_route none f e =
          let first =
            first_chain-next setup [] (no_route setup) c h d
              (ap (λ fs. run_chain setup fs (no_route setup) c) (sym router-first) ∙ e) in
          not_handled setup _ h d first.4
      by_route (some r) f e =
          let right =
            All-Among IsRight (configure setup gin) (registers c.method c.path r f)
              configure-IsRight in
          let granted =
            chain-IsGranted setup (needs r.handler) r.handler h c d
              (ap (λ fs. run_chain setup fs (handled r.handler) c) (sym right) ∙ e) in
          subst (λ k. IsGranted setup (needs k) c d) granted.0 granted.1
