-- ===== src/Router/Examples.antt =====
-- A control plane with two keys, two nodes and two servers, and tests.
use sls.Shared.{
  ℕ, Bool, true, false, ◌&&◌, ◌==◌, Option, none, some, List, [], ◌∷◌, ◌++◌, ◌≡◌, refl, inl, inr,
  Among, if◌then◌else◌,
}
use sls.Shared.Equality.{nat_eq, list_eq, list_beq}
use sls.Shared.Int.{pos}
use sls.Shared.Outcome.{Outcome, ok, err}
use sls.Shared.Table.{lookup}
use sls.Shared.Text.{Text, codes}
use sls.Shared.Text.Affixes.{has_prefix, trim_prefix}
use sls.Router.{
  Method, Handler, Setup, Context, Response, json, no_content, panicked, handled, app_admin,
  node_scope,
}
use sls.Router.Middleware.{HandlerFunc}
use sls.Router.Routes.{Gin, IsGin, Route, configure, dispatch}
use sls.Router.Access.{dispatch-IsGranted}
use sls.Router.Needs.{needs, IsGranted}

abbrev key_of_token : Bool → Bool → Outcome Text ℕ
key_of_token true is_node = ok 1
key_of_token false true = ok 2
key_of_token false false = err (codes "invalid key")

-- The first key is of an administrator, the second of a node.
abbrev setup : Setup ℕ ℕ ℕ ℕ
setup = record {
  validate =
      λ token. key_of_token (list_beq token (codes "sls_a")) (list_beq token (codes "sls_n"));
  has_scope = λ key scope. list_beq scope (if key == 1 then app_admin else node_scope);
  servers = (codes ":server", 11) ∷ (codes "other", 12) ∷ [];
  nodes = (codes ":node", 21) ∷ [];
  blueprints = [];
  limiter =
      λ client. record { tokens = pos 50; allow = true; tokens_after = pos 49; reset_time = [] };
  allowed_origins = codes "https://panel" ∷ [];
  allow_private_network = false;
  server_id = λ s. s ∷ [];
  node_id = λ n. n ∷ [];
  blueprint_id = λ b. b ∷ [];
  itoa = λ n. n ∷ [];
}

-- A group as its path and its middlewares.
abbrev gin : Gin (HandlerFunc setup)
gin = record {
  Group = Text × List (HandlerFunc setup);
  new = ([], []);
  group = λ g path. (g.0 ++ path, g.1);
  use_next = λ g fs. (g.0, g.1 ++ fs);
  handlers = λ g. g.1;
}

gin-IsGin : IsGin (HandlerFunc setup) gin
gin-IsGin = record { new_none = refl; group_same = λ g path. refl; use_behind = λ g fs. refl }

abbrev same_method : Method → Method → Bool
same_method Method.http_get Method.http_get = true
same_method Method.http_post Method.http_post = true
same_method m n = false

-- A route whose path is that of the request, letter for letter.
abbrev fits : Method → Text → Route gin.Group → Bool
fits method path r = same_method r.method method && list_beq (r.group.0 ++ r.path) path

abbrev find : List (Route gin.Group) → Method → Text → Option (Route gin.Group)
find [] method path = none
find (r ∷ rs) method path =
    let rest = find rs method path in if fits method path r then some r else rest

by_match-Among :
    (b : Bool) (r s : Route gin.Group) (rs : List (Route gin.Group))
    (rest : Option (Route gin.Group))
    → (rest ≡ some r → Among r rs)
    → (if b then some s else rest) ≡ some r
    → Among r (s ∷ rs)
by_match-Among true r s rs rest behind e = inl (let same : r ≡ s = cc in same)
by_match-Among false r s rs rest behind e = inr (behind e)

find-Among :
    (rs : List (Route gin.Group)) (method : Method) (path : Text) (r : Route gin.Group)
    → find rs method path ≡ some r
    → Among r rs
find-Among [] method path r e = cc
find-Among (s ∷ rs) method path r e =
    by_match-Among (fits method path s) r s rs (find rs method path) (find-Among rs method path r) e

abbrev request : Method → Text → Text → Context ℕ ℕ ℕ ℕ
request method path authorization = record {
  method = method;
  path = path;
  header = λ name. if list_beq name (codes "Authorization") then authorization else [];
  param = λ name. if list_beq name (codes "server") then codes ":server" else codes ":node";
  client_ip = codes "::1";
  new_id = codes "id";
  logger = none;
  api_key = none;
  server = none;
  node = none;
  blueprint = none;
  response_headers = [];
}

abbrev reply : Context ℕ ℕ ℕ ℕ → Response ℕ ℕ ℕ ℕ
reply c = dispatch setup gin find c

abbrev status : Response ℕ ℕ ℕ ℕ → ℕ
status (json code detail hint c) = code
status (no_content c) = 204
status panicked = 500
status (handled h c) = 200

abbrev reached : Response ℕ ℕ ℕ ℕ → Context ℕ ℕ ℕ ℕ → Context ℕ ℕ ℕ ℕ
reached (handled h c) d = c
reached response d = d

abbrev of_server : Context ℕ ℕ ℕ ℕ
of_server = request Method.http_get (codes "/api/servers/:server") (codes "Bearer sls_a")

no_header : status (reply (request Method.http_get (codes "/api/nodes") [])) ≡ 401
unfolding dispatch
no_header = refl

-- A node may not ask for a server outside of its internal routes.
wrong_scope :
    status (reply (request Method.http_get (codes "/api/servers/:server") (codes "Bearer sls_n")))
    ≡ 403
unfolding dispatch has_prefix trim_prefix
wrong_scope = refl

no_such_route :
    status (reply (request Method.http_post (codes "/api/nodes") (codes "Bearer sls_a"))) ≡ 404
unfolding dispatch
no_such_route = refl

preflight : status (reply (request Method.http_options (codes "/api/nodes") [])) ≡ 204
unfolding dispatch
preflight = refl

-- The key of any node speaks for the node that the path names, and for any server.
other_node :
    status (
      reply (
        request Method.http_post
          (codes "/api/nodes/:node/internal/event/servers/:server/deleted")
          (codes "Bearer sls_n")))
    ≡ 200
unfolding dispatch has_prefix trim_prefix lookup
other_node = refl

dispatch-IsGranted_example :
    IsGranted setup (needs Handler.get_server) of_server (reached (reply of_server) of_server)
unfolding dispatch has_prefix trim_prefix lookup
dispatch-IsGranted_example =
    dispatch-IsGranted setup gin gin-IsGin find (find-Among (configure setup gin)) of_server
      Handler.get_server (reached (reply of_server) of_server) refl
