-- ===== src/Router.antt =====
-- The routes of the control plane, protocube/api/router/router.go, and the middlewares in front of the
-- handlers, protocube/api/router/middleware/middleware.go and rate_limiter.go. `c.Next` is the
-- continuation of a middleware. Gin, the key service and the limiters are arguments. The middlewares
-- that only act on what a handler answers, Recovery, CaptureErrors and Timeout, are left out.
pub mod Middleware
pub mod Routes
pub mod Chains
pub mod Needs
pub mod Access
mod Examples
use sls.Shared.{ℕ, Bool, Option, List}
use sls.Shared.Table.{Table}
use sls.Shared.Int.{ℤ}
use sls.Shared.Outcome.{Outcome}
use sls.Shared.Text.{Text, codes}

pub data Method : Type 0 where
  http_get : Method
  http_post : Method
  http_patch : Method
  http_delete : Method
  http_options : Method

-- The handlers of the routes.
pub data Handler : Type 0 where
  post_banner : Handler
  get_nodes : Handler
  get_all_nodes : Handler
  get_system_information : Handler
  get_all_servers : Handler
  post_create_server : Handler
  get_all_blueprints : Handler
  post_reload_blueprints : Handler
  post_reload_software : Handler
  get_event_stream : Handler
  get_server_websocket : Handler
  get_blueprint : Handler
  get_server : Handler
  delete_server : Handler
  get_server_logs : Handler
  post_server_power : Handler
  get_server_status : Handler
  get_server_stats : Handler
  post_server_commands : Handler
  post_server_reset : Handler
  get_server_install_logs : Handler
  get_server_install_info : Handler
  post_server_reinstall : Handler
  post_node_register : Handler
  get_node : Handler
  get_node_system_info : Handler
  toggle_node_drained : Handler
  post_node_heartbeat : Handler
  post_node_disconnect : Handler
  get_all_server_configurations : Handler
  get_server_configuration : Handler
  get_install_info : Handler
  post_node_server_status : Handler
  post_node_server_install_status : Handler
  post_event_server_crash : Handler
  post_event_server_deleted : Handler

abbrev pub app_admin : Text
app_admin = codes "app:admin"

abbrev pub node_scope : Text
node_scope = codes "node"

-- A limiter of golang.org/x/time/rate at a request: the whole tokens before it, whether it allows the
-- request, the whole tokens after it, and the time of the reset as fmt writes it.
pub record Limiter : Type 0 where
  pub tokens : ℤ
  pub allow : Bool
  pub tokens_after : ℤ
  pub reset_time : Text

-- The key service, the servers, the nodes and the blueprints with their ids, the limiter of a client,
-- the configuration, and strconv.Itoa.
pub record Setup (S N B K : Type 0) : Type 0 where
  pub validate : Text → Outcome Text K
  pub has_scope : K → Text → Bool
  pub servers : Table Text S
  pub nodes : Table Text N
  pub blueprints : Table Text B
  pub limiter : Text → Limiter
  pub allowed_origins : List Text
  pub allow_private_network : Bool
  pub server_id : S → Text
  pub node_id : N → Text
  pub blueprint_id : B → Text
  pub itoa : ℕ → Text

-- The gin.Context: the request, what the middlewares set in it, and the headers of the response.
pub record Context (S N B K : Type 0) : Type 0 where
  pub method : Method
  pub path : Text
  pub header : Text → Text
  pub param : Text → Text
  pub client_ip : Text
  pub new_id : Text
  pub logger : Option (List (Text × Text))
  pub api_key : Option K
  pub server : Option S
  pub node : Option N
  pub blueprint : Option B
  pub response_headers : List (Text × Text)

-- How the middlewares end: an error body with its status, no content, a panic, or the handler.
pub data Response (S N B K : Type 0) : Type 0 where
  json : ℕ → Text → Text → Context S N B K → Response S N B K
  no_content : Context S N B K → Response S N B K
  panicked : Response S N B K
  handled : Handler → Context S N B K → Response S N B K
