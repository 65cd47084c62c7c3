-- ===== src/Router/Routes.antt =====
-- `Configure` of protocube/api/router/router.go: the groups of the routes, the middlewares that each
-- group uses, and the handlers.
use sls.Shared.{Option, none, some, List, [], ◌∷◌, ◌++◌, ◌≡◌}
use sls.Shared.Text.{Text, codes}
use sls.Router.{Method, Handler, Setup, Context, Response, json, handled, app_admin, node_scope}
use sls.Router.Middleware.{
  HandlerFunc, attach_request_id, set_access_control_headers, rate_limiter, require_authorization,
  server_exists, node_exists, blueprint_exists,
}

-- What Configure uses of gin: the engine, a group of a group with a path, the middlewares that a group
-- uses from now on, and those that a route of a group gets.
pub record Gin (F : Type 0) : Type 1 where
  pub Group : Type 0
  pub new : Group
  pub group : Group → Text → Group
  pub use_next : Group → List F → Group
  pub handlers : Group → List F

-- A group takes the middlewares of the group that it is made of.
pub record IsGin (F : Type 0) (gin : Gin F) : Type 0 where
  pub new_none : gin.handlers gin.new ≡ []
  pub group_same : (g : gin.Group) (path : Text) → gin.handlers (gin.group g path) ≡ gin.handlers g
  pub use_behind :
      (g : gin.Group) (fs : List F) → gin.handlers (gin.use_next g fs) ≡ gin.handlers g ++ fs

-- A registration: the path is that behind the path of the group.
pub record Route (G : Type 0) : Type 0 where
  pub group : G
  pub method : Method
  pub path : Text
  pub handler : Handler

module _ {S N B K : Type 0} (setup : Setup S N B K) where
  -- `NoRoute`
  abbrev pub no_route : Context S N B K → Response S N B K
  no_route c =
      json 404 (codes "no matching route") (codes "The requested resource does not exist.") c

  -- The middlewares, one behind the other, and what stands behind them.
  abbrev pub run_chain :
      List (HandlerFunc setup)
      → (Context S N B K → Response S N B K)
      → Context S N B K
      → Response S N B K
  run_chain [] final c = final c
  run_chain (f ∷ fs) final c = f c (run_chain fs final)

module _ {S N B K : Type 0} (setup : Setup S N B K) (gin : Gin (HandlerFunc setup)) where
  -- `router`, with the middlewares that all routes use
  abbrev pub router : gin.Group
  router =
      let router =
        gin.use_next gin.new (attach_request_id setup ∷ set_access_control_headers setup ∷ []) in
      gin.use_next router (rate_limiter setup ∷ [])

  abbrev get : gin.Group → Text → Handler → Route gin.Group
  get g path h = record { group = g; method = Method.http_get; path = path; handler = h }

  abbrev post : gin.Group → Text → Handler → Route gin.Group
  post g path h = record { group = g; method = Method.http_post; path = path; handler = h }

  abbrev pub open_routes : List (Route gin.Group)
  open_routes =
      get router (codes "") Handler.post_banner ∷ get router (codes "/nodes") Handler.get_nodes ∷ []

  abbrev pub protected_routes : List (Route gin.Group)
  protected_routes =
      let protected =
        gin.use_next (gin.group router (codes "/api"))
          (require_authorization setup app_admin ∷ []) in
      get protected (codes "/nodes") Handler.get_all_nodes
      ∷ get protected (codes "/system") Handler.get_system_information
      ∷ get protected (codes "/servers") Handler.get_all_servers
      ∷ post protected (codes "/servers") Handler.post_create_server
      ∷ get protected (codes "/blueprints") Handler.get_all_blueprints
      ∷ post protected (codes "/blueprints/reload") Handler.post_reload_blueprints
      ∷ post protected (codes "/software/reload") Handler.post_reload_software
      ∷ get protected (codes "/events") Handler.get_event_stream
      ∷ get protected (codes "/events/ws") Handler.get_server_websocket
      ∷ []

  abbrev pub blueprint_routes : List (Route gin.Group)
  blueprint_routes =
      let blueprint_group =
        gin.use_next (gin.group router (codes "/api/blueprints/:blueprint"))
          (require_authorization setup node_scope ∷ blueprint_exists setup ∷ []) in
      get blueprint_group (codes "") Handler.get_blueprint ∷ []

  abbrev pub server_routes : List (Route gin.Group)
  server_routes =
      let server =
        gin.use_next (gin.group router (codes "/api/servers/:server"))
          (require_authorization setup app_admin ∷ server_exists setup ∷ []) in
      get server (codes "") Handler.get_server
      ∷ record {
        group = server;
        method = Method.http_delete;
        path = codes "";
        handler = Handler.delete_server;
      }
      ∷ get server (codes "/logs") Handler.get_server_logs
      ∷ post server (codes "/power") Handler.post_server_power
      ∷ get server (codes "/status") Handler.get_server_status
      ∷ get server (codes "/stats") Handler.get_server_stats
      ∷ post server (codes "/commands") Handler.post_server_commands
      ∷ post server (codes "/reset") Handler.post_server_reset
      ∷ get server (codes "/install/logs") Handler.get_server_install_logs
      ∷ get server (codes "/install") Handler.get_server_install_info
      ∷ post server (codes "/reinstall") Handler.post_server_reinstall
      ∷ []

  abbrev pub registration_routes : List (Route gin.Group)
  registration_routes =
      let registration =
        gin.use_next (gin.group router (codes "/api/nodes/:node"))
          (require_authorization setup node_scope ∷ []) in
      post registration (codes "/register") Handler.post_node_register ∷ []

  abbrev pub node_routes : List (Route gin.Group)
  node_routes =
      let node =
        gin.use_next (gin.group router (codes "/api/nodes/:node"))
          (require_authorization setup app_admin ∷ node_exists setup ∷ []) in
      get node (codes "") Handler.get_node
      ∷ get node (codes "/system") Handler.get_node_system_info
      ∷ record {
        group = node;
        method = Method.http_patch;
        path = codes "/drained";
        handler = Handler.toggle_node_drained;
      }
      ∷ []

  abbrev pub internal_routes : List (Route gin.Group)
  internal_routes =
      let internal =
        gin.use_next (gin.group router (codes "/api/nodes/:node/internal"))
          (require_authorization setup node_scope ∷ node_exists setup ∷ []) in
      let node_server =
        gin.use_next (gin.group internal (codes "/servers/:server")) (server_exists setup ∷ []) in
      let event =
        gin.use_next (gin.group internal (codes "/event/servers/:server"))
          (server_exists setup ∷ []) in
      post internal (codes "/heartbeat") Handler.post_node_heartbeat
      ∷ post internal (codes "/disconnect") Handler.post_node_disconnect
      ∷ get internal (codes "/servers") Handler.get_all_server_configurations
      ∷ get node_server (codes "") Handler.get_server_configuration
      ∷ get node_server (codes "/install") Handler.get_install_info
      ∷ post event (codes "/status") Handler.post_node_server_status
      ∷ post event (codes "/install-status") Handler.post_node_server_install_status
      ∷ post event (codes "/crash") Handler.post_event_server_crash
      ∷ post event (codes "/deleted") Handler.post_event_server_deleted
      ∷ []

  unfoldable pub configure : List (Route gin.Group)
  configure =
      open_routes ++ protected_routes ++ blueprint_routes ++ server_routes ++ registration_routes
      ++ node_routes ++ internal_routes

  abbrev pub answer_route : Option (Route gin.Group) → Context S N B K → Response S N B K
  answer_route none c = run_chain setup (gin.handlers router) (no_route setup) c
  answer_route (some r) c = run_chain setup (gin.handlers r.group) (handled r.handler) c

  -- A request, with the route that gin finds for it.
  unfoldable pub dispatch :
      (List (Route gin.Group) → Method → Text → Option (Route gin.Group))
      → Context S N B K
      → Response S N B K
  unfolding configure
  dispatch find c = answer_route (find configure c.method c.path) c
