-- ===== src/Router/Needs.antt =====
-- What each handler of protocube/api/router needs, and what a request has shown that passes the
-- middlewares for it.
use sls.Shared.{Bool, true, false, Option, none, some, List, [], ◌∷◌, ◌++◌, ◌≡◌, refl, subst}
use sls.Shared.Table.{Table}
use sls.Shared.Text.{Text, codes}
use sls.Router.{Handler, Limiter, Setup, Context, Response, handled, app_admin, node_scope}
use sls.Router.Middleware.{
  HandlerFunc, look_up, attach_request_id, set_access_control_headers, rate_limiter,
  require_authorization, server_exists, node_exists, blueprint_exists, is_options, unless_options,
  limited,
}
use sls.Router.Routes.{run_chain, no_route}
use sls.Router.Chains.{
  Next, IsBearer, require_authorization-IsBearer, server_exists-next, node_exists-next,
  blueprint_exists-next,
}

-- What a handler needs: the scope of the caller, and what it extracts from the context.
pub record Needs : Type 0 where
  pub scope : Option Text
  pub node : Bool
  pub server : Bool
  pub blueprint : Bool

abbrev nothing : Needs
nothing = record { scope = none; node = false; server = false; blueprint = false }

abbrev administrator : Needs
administrator = record nothing { scope = some app_admin }

abbrev a_node : Needs
a_node = record nothing { scope = some node_scope }

abbrev pub needs : Handler → Needs
needs Handler.post_banner = nothing
needs Handler.get_nodes = nothing
needs Handler.get_blueprint = record a_node { blueprint = true }
needs Handler.post_node_register = a_node
needs Handler.post_node_heartbeat = record a_node { node = true }
needs Handler.post_node_disconnect = record a_node { node = true }
needs Handler.get_all_server_configurations = record a_node { node = true }
needs Handler.get_server_configuration = record a_node { node = true; server = true }
needs Handler.get_install_info = record a_node { node = true; server = true }
needs Handler.post_node_server_status = record a_node { node = true; server = true }
needs Handler.post_node_server_install_status = record a_node { node = true; server = true }
needs Handler.post_event_server_crash = record a_node { node = true; server = true }
needs Handler.post_event_server_deleted = record a_node { node = true; server = true }
needs Handler.get_node = record administrator { node = true }
needs Handler.get_node_system_info = record administrator { node = true }
needs Handler.toggle_node_drained = record administrator { node = true }
needs Handler.get_server = record administrator { server = true }
needs Handler.delete_server = record administrator { server = true }
needs Handler.get_server_logs = record administrator { server = true }
needs Handler.post_server_power = record administrator { server = true }
needs Handler.get_server_status = record administrator { server = true }
needs Handler.get_server_stats = record administrator { server = true }
needs Handler.post_server_commands = record administrator { server = true }
needs Handler.post_server_reset = record administrator { server = true }
needs Handler.get_server_install_logs = record administrator { server = true }
needs Handler.get_server_install_info = record administrator { server = true }
needs Handler.post_server_reinstall = record administrator { server = true }
needs handler = administrator

module _ {S N B K : Type 0} (setup : Setup S N B K) where
  -- The middlewares of a handler with some needs, behind those of all routes.
  abbrev authorization : Option Text → List (HandlerFunc setup)
  authorization none = []
  authorization (some scope) = require_authorization setup scope ∷ []

  abbrev when : Bool → HandlerFunc setup → List (HandlerFunc setup)
  when false f = []
  when true f = f ∷ []

  abbrev pub chain_of : Needs → List (HandlerFunc setup)
  chain_of n =
      authorization n.scope
      ++ (when n.node (node_exists setup)
          ++ (when n.server (server_exists setup)
              ++ (when n.blueprint (blueprint_exists setup) ++ [])))

  abbrev pub first_chain : List (HandlerFunc setup)
  first_chain = attach_request_id setup ∷ set_access_control_headers setup ∷ rate_limiter setup ∷ []

  -- The key in the context is one of the caller, in the scope.
  abbrev IsAuthorized : Option Text → Text → Option K → Type 0
  IsAuthorized none given found = Unit {0}
  IsAuthorized (some scope) given found =
      (key : K) × IsBearer setup scope given key × (found ≡ some key)

  -- What the path names is there, and in the context.
  abbrev IsFound : {A : Type 0} → Bool → Table Text A → Text → Option A → Type 0
  IsFound false table id found = Unit {0}
  IsFound {A} true table id found = (a : A) × (look_up table id ≡ some a) × (found ≡ some a)

  pub record IsGranted (n : Needs) (c d : Context S N B K) : Type 0 where
    pub method : is_options c.method ≡ false
    pub allowed : (setup.limiter c.client_ip).allow ≡ true
    pub authorized : IsAuthorized n.scope (c.header (codes "Authorization")) d.api_key
    pub node : IsFound n.node setup.nodes (c.param (codes "node")) d.node
    pub server : IsFound n.server setup.servers (c.param (codes "server")) d.server
    pub blueprint : IsFound n.blueprint setup.blueprints (c.param (codes "blueprint")) d.blueprint

  authorization-next :
      (scope : Option Text) (gs : List (HandlerFunc setup)) (final : Next setup)
      (c : Context S N B K) (h : Handler) (d : Context S N B K)
      → run_chain setup (authorization scope ++ gs) final c ≡ handled h d
      → (k : Option K) × IsAuthorized scope (c.header (codes "Authorization")) k
        × (run_chain setup gs final (record c { api_key = k }) ≡ handled h d)
  authorization-next none gs final c h d e = (c.api_key, tt, e)
  authorization-next (some scope) gs final c h d e =
      let r = require_authorization-IsBearer setup scope c (run_chain setup gs final) h d e in
      (some r.0, (r.0, r.1, refl), r.2)

  node-next :
      (b : Bool) (gs : List (HandlerFunc setup)) (final : Next setup) (c : Context S N B K)
      (h : Handler) (d : Context S N B K)
      → run_chain setup (when b (node_exists setup) ++ gs) final c ≡ handled h d
      → (n : Option N) × IsFound b setup.nodes (c.param (codes "node")) n
        × (fields : Option (List (Text × Text))) × (run_chain setup gs final
              (record c { node = n; logger = fields })
            ≡ handled h d)
  node-next false gs final c h d e = (c.node, tt, c.logger, e)
  node-next true gs final c h d e =
      let r = node_exists-next setup c (run_chain setup gs final) h d e in
      (some r.0, (r.0, r.1, refl), some r.2, r.3)

  server-next :
      (b : Bool) (gs : List (HandlerFunc setup)) (final : Next setup) (c : Context S N B K)
      (h : Handler) (d : Context S N B K)
      → run_chain setup (when b (server_exists setup) ++ gs) final c ≡ handled h d
      → (s : Option S) × IsFound b setup.servers (c.param (codes "server")) s
        × (fields : Option (List (Text × Text))) × (run_chain setup gs final
              (record c { server = s; logger = fields })
            ≡ handled h d)
  server-next false gs final c h d e = (c.server, tt, c.logger, e)
  server-next true gs final c h d e =
      let r = server_exists-next setup c (run_chain setup gs final) h d e in
      (some r.0, (r.0, r.1, refl), some r.2, r.3)

  blueprint-next :
      (b : Bool) (gs : List (HandlerFunc setup)) (final : Next setup) (c : Context S N B K)
      (h : Handler) (d : Context S N B K)
      → run_chain setup (when b (blueprint_exists setup) ++ gs) final c ≡ handled h d
      → (p : Option B) × IsFound b setup.blueprints (c.param (codes "blueprint")) p
        × (fields : Option (List (Text × Text))) × (run_chain setup gs final
              (record c { blueprint = p; logger = fields })
            ≡ handled h d)
  blueprint-next false gs final c h d e = (c.blueprint, tt, c.logger, e)
  blueprint-next true gs final c h d e =
      let r = blueprint_exists-next setup c (run_chain setup gs final) h d e in
      (some r.0, (r.0, r.1, refl), some r.2, r.3)

  unless_options-next :
      (b : Bool) (c : Context S N B K) (next : Next setup) (h : Handler) (d : Context S N B K)
      → unless_options setup b c next ≡ handled h d
      → (b ≡ false) × (next c ≡ handled h d)
  unless_options-next false c next h d e = (refl, e)
  unless_options-next true c next h d e = cc

  limited-next :
      (entry : Limiter) (b : Bool) (c : Context S N B K) (next : Next setup) (h : Handler)
      (d : Context S N B K)
      → limited setup entry b c next ≡ handled h d
      → (b ≡ true) × (next c ≡ handled h d)
  limited-next entry true c next h d e = (refl, e)
  limited-next entry false c next h d e = cc

  handled-injective :
      (h k : Handler) (c d : Context S N B K)
      → ◌≡◌ {A = Response S N B K} (handled h c) (handled k d)
      → (h ≡ k) × (c ≡ d)
  handled-injective h k c d e = (cc, cc)

  pub not_handled :
      {X : Type 0} (c : Context S N B K) (h : Handler) (d : Context S N B K)
      → no_route setup c ≡ handled h d
      → X
  not_handled c h d e = cc

  pub first_chain-next :
      (gs : List (HandlerFunc setup)) (final : Next setup) (c : Context S N B K) (h : Handler)
      (d : Context S N B K)
      → run_chain setup (first_chain ++ gs) final c ≡ handled h d
      → (is_options c.method ≡ false)
        × ((setup.limiter c.client_ip).allow ≡ true)
        × (fields : Option (List (Text × Text))) × (headers : List (Text × Text)) × (run_chain setup
              gs final
              (record c { logger = fields; response_headers = headers })
            ≡ handled h d)
  first_chain-next gs final c h d e =
      let method = unless_options-next (is_options c.method) _ _ h d e in
      let allowed =
        limited-next (setup.limiter c.client_ip) (setup.limiter c.client_ip).allow _ _ h d
          method.1 in
      (method.0, allowed.0, _, _, allowed.1)

  pub chain-IsGranted :
      (n : Needs) (k h : Handler) (c d : Context S N B K)
      → run_chain setup (first_chain ++ chain_of n) (handled k) c ≡ handled h d
      → (k ≡ h) × IsGranted n c d
  chain-IsGranted n k h c d e =
      let final : Next setup = handled k in
      let first = first_chain-next (chain_of n) final c h d e in
      let behind_server = when n.blueprint (blueprint_exists setup) ++ [] in
      let behind_node = when n.server (server_exists setup) ++ behind_server in
      let key =
        authorization-next n.scope (when n.node (node_exists setup) ++ behind_node) final _ h d
          first.4 in
      let node = node-next n.node behind_node final _ h d key.2 in
      let server = server-next n.server behind_server final _ h d node.3 in
      let blueprint = blueprint-next n.blueprint [] final _ h d server.3 in
      let same = handled-injective k h _ d blueprint.3 in
      (
        same.0,
        subst (IsGranted n c) same.1 (record {
          method = first.0;
          allowed = first.1;
          authorized = key.1;
          node = node.1;
          server = server.1;
          blueprint = blueprint.1;
        }),
      )
