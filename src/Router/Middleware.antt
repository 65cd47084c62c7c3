-- ===== src/Router/Middleware.antt =====
-- The middlewares of protocube/api/router/middleware: middleware.go and rate_limiter.go.
use sls.Shared.{ℕ, suc, Bool, true, false, ◌||◌, Option, none, some, List, [], ◌∷◌, if◌then◌else◌}
use sls.Shared.Equality.{nat_eq, list_eq, list_beq}
use sls.Shared.Table.{Table, lookup}
use sls.Shared.Int.{ℤ, pos, negsuc}
use sls.Shared.Outcome.{Outcome, ok, err}
use sls.Shared.Text.{Text, codes}
use sls.Shared.Text.Affixes.{has_prefix, trim_prefix}
use sls.Router.{Method, Limiter, Setup, Context, Response, json, no_content, panicked}

abbrev pub is_options : Method → Bool
is_options Method.http_options = true
is_options method = false

-- `RemainingTokens`
abbrev remaining_tokens : ℤ → ℕ
remaining_tokens (pos n) = n
remaining_tokens (negsuc n) = 0

-- `RetryAfterSeconds`
abbrev retry_after_seconds : ℤ → ℕ
retry_after_seconds (pos (suc n)) = 0
retry_after_seconds tokens = 1

-- The loop over the origins.
unfoldable pub allowed_origin : Text → List Text → Option Text
allowed_origin origin [] = none
allowed_origin origin (o ∷ origins) =
    let rest = allowed_origin origin origins in
    if list_beq o (codes "*") || list_beq o origin then some o else rest

abbrev allow_origin : Option Text → List (Text × Text) → List (Text × Text)
allow_origin none headers = headers
allow_origin (some o) headers = (codes "Access-Control-Allow-Origin", o) ∷ headers

abbrev allow_private : Bool → List (Text × Text) → List (Text × Text)
allow_private false headers = headers
allow_private true headers =
    (codes "Access-Control-Request-Private-Network", codes "true") ∷ headers

-- `if c.Param(name) != "" { … }`
abbrev pub look_up : {A : Type 0} → Table Text A → Text → Option A
look_up table [] = none
look_up table (x ∷ id) = lookup (x ∷ id) table

module _ {S N B K : Type 0} (setup : Setup S N B K) where
  abbrev pub HandlerFunc : Type 0
  HandlerFunc = Context S N B K → (Context S N B K → Response S N B K) → Response S N B K

  abbrev pub set_header : Text → Text → Context S N B K → Context S N B K
  set_header key value c = record c { response_headers = (key, value) ∷ c.response_headers }

  -- `c.Set("logger", ExtractLogger(c).WithField(key, value))`
  abbrev pub with_field : Text → Text → Option (List (Text × Text)) → HandlerFunc
  with_field key value none c next = panicked
  with_field key value (some fields) c next =
      next (record c { logger = some ((key, value) ∷ fields) })

  abbrev pub not_found : Context S N B K → Response S N B K
  not_found c =
      json 404 (codes "resource not found")
        (codes "The requested resource does not exist on this instance.") c

  abbrev pub attach_request_id : HandlerFunc
  attach_request_id c next = next (
      set_header (codes "X-Request-Id") c.new_id
        (record c { logger = some ((codes "request_id", c.new_id) ∷ []) }))

  abbrev set_access_control : List Text → Bool → Context S N B K → Context S N B K
  set_access_control origins private_network c = record c {
    response_headers = allow_origin (allowed_origin (c.header (codes "Origin")) origins) (
        (codes "Access-Control-Max-Age", codes "7200")
        ∷ allow_private private_network (
            (
              codes "Access-Control-Allow-Headers",
              codes
                  "Accept, Accept-Encoding, Authorization, Cache-Control, Content-Type, Content-Length, Origin, X-Real-IP, X-CSRF-NodeToken",
            )
            ∷ (codes "Access-Control-Allow-Methods", codes "GET, POST, PATCH, PUT, DELETE, OPTIONS")
            ∷ (codes "Access-Control-Allow-Credentials", codes "true")
            ∷ c.response_headers));
  }

  abbrev pub unless_options : Bool → HandlerFunc
  unless_options true c next = no_content c
  unless_options false c next = next c

  abbrev pub set_access_control_headers : HandlerFunc
  set_access_control_headers c next =
      unless_options (is_options c.method)
        (set_access_control setup.allowed_origins setup.allow_private_network c) next

  -- The headers of SetRateLimitHeaders; the limit is requestsPerSecond*burst.
  abbrev set_rate_limit_headers : Limiter → Context S N B K → Context S N B K
  set_rate_limit_headers entry c =
      let limit = set_header (codes "X-RateLimit-Limit") (setup.itoa 1000) c in
      let remaining =
        set_header (codes "X-RateLimit-Remaining") (setup.itoa (remaining_tokens entry.tokens))
          limit in
      set_header (codes "X-RateLimit-Reset") entry.reset_time remaining

  abbrev pub limited : Limiter → Bool → HandlerFunc
  limited entry true c next = next c
  limited entry false c next =
      json 429 (codes "rate_limit_exceeded") (codes "Too many requests. Please try again later.")
        (set_header (codes "Retry-After") (setup.itoa (retry_after_seconds entry.tokens_after)) c)

  abbrev pub rate_limiter : HandlerFunc
  rate_limiter c next =
      let entry = setup.limiter c.client_ip in
      limited entry entry.allow (set_rate_limit_headers entry c) next

  abbrev pub found_server : Option S → HandlerFunc
  found_server none c next = not_found c
  found_server (some s) c next =
      with_field (codes "server_id") (setup.server_id s) c.logger (record c { server = some s })
        next

  abbrev pub server_exists : HandlerFunc
  server_exists c next = found_server (look_up setup.servers (c.param (codes "server"))) c next

  abbrev pub found_node : Option N → HandlerFunc
  found_node none c next = not_found c
  found_node (some n) c next =
      with_field (codes "node_id") (setup.node_id n) c.logger (record c { node = some n }) next

  abbrev pub node_exists : HandlerFunc
  node_exists c next = found_node (look_up setup.nodes (c.param (codes "node"))) c next

  abbrev pub found_blueprint : Option B → HandlerFunc
  found_blueprint none c next = not_found c
  found_blueprint (some b) c next =
      with_field (codes "blueprint_id") (setup.blueprint_id b) c.logger
        (record c { blueprint = some b }) next

  abbrev pub blueprint_exists : HandlerFunc
  blueprint_exists c next =
      found_blueprint (look_up setup.blueprints (c.param (codes "blueprint"))) c next

  abbrev unauthorized : Text → Text → Context S N B K → Response S N B K
  unauthorized detail hint c = json 401 detail hint c

  -- `scope != "" && !key.HasScope(scope)`, the other way round
  abbrev pub in_scope : Text → K → Bool
  in_scope [] key = true
  in_scope (x ∷ scope) key = setup.has_scope key (x ∷ scope)

  abbrev pub with_key : Bool → K → HandlerFunc
  with_key true key c next = next (record c { api_key = some key })
  with_key false key c next =
      json 403 (codes "Api key missing required scope for this endpoint")
        (codes "Insufficient privileges") c

  abbrev pub validated : Text → Outcome Text K → HandlerFunc
  validated scope (err e) c next =
      unauthorized e (codes "You are not authorized to access this endpoint.") c
  validated scope (ok key) c next = with_key (in_scope scope key) key c next

  abbrev pub with_token : Text → Text → Bool → HandlerFunc
  with_token scope auth_header false c next =
      unauthorized [] (codes "Invalid authorization header format.") c
  with_token scope auth_header true c next =
      validated scope (setup.validate (trim_prefix (codes "Bearer ") auth_header)) c next

  abbrev pub authorize : Text → Text → HandlerFunc
  authorize scope [] c next =
      unauthorized [] (codes "The required authorization header was not present in the request.")
        (set_header (codes "WWW-Authenticate") (codes "Bearer") c)
  authorize scope (x ∷ auth_header) c next =
      with_token scope (x ∷ auth_header) (has_prefix (codes "Bearer ") (x ∷ auth_header)) c next

  abbrev pub require_authorization : Text → HandlerFunc
  require_authorization scope c next = authorize scope (c.header (codes "Authorization")) c next
