-- ===== src/Router/Chains.antt =====
-- What a request that passes a middleware of protocube/api/router/middleware has shown.
use sls.Shared.{Bool, true, false, Option, none, some, List, [], ◌∷◌, ◌++◌, ◌≡◌, refl, sym, ap, ◌∙◌}
use sls.Shared.Equality.{nat_eq, list_eq}
use sls.Shared.Outcome.{Outcome, ok, err}
use sls.Shared.Text.{Text, codes}
use sls.Shared.Text.Affixes.{has_prefix, trim_prefix, has_prefix-append, trim_prefix-append}
use sls.Router.{Handler, Setup, Context, Response, handled}
use sls.Router.Middleware.{
  look_up, in_scope, with_key, validated, with_token, authorize, with_field, found_server,
  found_node, found_blueprint, require_authorization, server_exists, node_exists, blueprint_exists,
}

module _ {S N B K : Type 0} (setup : Setup S N B K) where
  -- The request, with what the middlewares set in it.
  abbrev pub Next : Type 0
  Next = Context S N B K → Response S N B K

  -- A bearer of a key that the service accepts, in the scope.
  pub record IsBearer (scope given : Text) (key : K) : Type 0 where
    pub token : Text
    pub header : given ≡ codes "Bearer " ++ token
    pub accepted : setup.validate token ≡ ok key
    pub scoped : in_scope setup scope key ≡ true

  with_key-next :
      (scoped : Bool) (key : K) (c : Context S N B K) (next : Next) (h : Handler)
      (d : Context S N B K)
      → with_key setup scoped key c next ≡ handled h d
      → (scoped ≡ true) × (next (record c { api_key = some key }) ≡ handled h d)
  with_key-next true key c next h d e = (refl, e)
  with_key-next false key c next h d e = cc

  validated-next :
      (scope : Text) (o : Outcome Text K) (c : Context S N B K) (next : Next) (h : Handler)
      (d : Context S N B K)
      → validated setup scope o c next ≡ handled h d
      → (key : K) × (o ≡ ok key)
        × (in_scope setup scope key ≡ true)
        × (next (record c { api_key = some key }) ≡ handled h d)
  validated-next scope (err f) c next h d e = cc
  validated-next scope (ok key) c next h d e =
      let r = with_key-next (in_scope setup scope key) key c next h d e in (key, refl, r.0, r.1)

  with_token-IsBearer :
      (scope : Text) (is_bearer : Bool) (c : Context S N B K) (next : Next) (h : Handler)
      (d : Context S N B K)
      → has_prefix (codes "Bearer ") (c.header (codes "Authorization")) ≡ is_bearer
      → with_token setup scope (c.header (codes "Authorization")) is_bearer c next ≡ handled h d
      → (key : K) × IsBearer scope (c.header (codes "Authorization")) key
        × (next (record c { api_key = some key }) ≡ handled h d)
  with_token-IsBearer scope false c next h d p e = cc
  with_token-IsBearer scope true c next h d p e =
      let given = c.header (codes "Authorization") in
      let t = has_prefix-append (codes "Bearer ") given p in
      let token : trim_prefix (codes "Bearer ") given ≡ t.0 =
        ap (trim_prefix (codes "Bearer ")) t.1 ∙ trim_prefix-append (codes "Bearer ") t.0 in
      let r =
        validated-next scope (setup.validate (trim_prefix (codes "Bearer ") given)) c next h d e in
      (
        r.0,
        record {
          token = t.0;
          header = t.1;
          accepted = ap setup.validate (sym token) ∙ r.1;
          scoped = r.2;
        },
        r.3,
      )

  pub require_authorization-IsBearer :
      (scope : Text) (c : Context S N B K) (next : Next) (h : Handler) (d : Context S N B K)
      → require_authorization setup scope c next ≡ handled h d
      → (key : K) × IsBearer scope (c.header (codes "Authorization")) key
        × (next (record c { api_key = some key }) ≡ handled h d)
  require_authorization-IsBearer scope c next h d e =
      by_header (c.header (codes "Authorization")) refl e
    where
      by_header :
          (given : Text)
          → c.header (codes "Authorization") ≡ given
          → authorize setup scope given c next ≡ handled h d
          → (key : K) × IsBearer scope (c.header (codes "Authorization")) key
            × (next (record c { api_key = some key }) ≡ handled h d)
      by_header [] g e = cc
      by_header (x ∷ given) g e =
          with_token-IsBearer scope (has_prefix (codes "Bearer ") (x ∷ given)) c next h d
            (ap (has_prefix (codes "Bearer ")) g)
            (ap (λ t. with_token setup scope t (has_prefix (codes "Bearer ") (x ∷ given)) c next) g
              ∙ e)

  -- The logger is there, and takes one more field.
  with_field-next :
      (key value : Text) (logger : Option (List (Text × Text))) (c : Context S N B K) (next : Next)
      (h : Handler) (d : Context S N B K)
      → with_field setup key value logger c next ≡ handled h d
      → (fields : List (Text × Text)) × (next (record c { logger = some fields }) ≡ handled h d)
  with_field-next key value none c next h d e = cc
  with_field-next key value (some fields) c next h d e = ((key, value) ∷ fields, e)

  pub server_exists-next :
      (c : Context S N B K) (next : Next) (h : Handler) (d : Context S N B K)
      → server_exists setup c next ≡ handled h d
      → (s : S) × (look_up setup.servers (c.param (codes "server")) ≡ some s)
        × (fields : List (Text × Text)) × (next (record c { server = some s; logger = some fields })
            ≡ handled h d)
  server_exists-next c next h d e = by_server (look_up setup.servers (c.param (codes "server"))) e
    where
      by_server :
          (o : Option S)
          → found_server setup o c next ≡ handled h d
          → (s : S) × (o ≡ some s)
            × (fields : List (Text × Text)) × (next
                  (record c { server = some s; logger = some fields })
                ≡ handled h d)
      by_server none e = cc
      by_server (some s) e =
          let r =
            with_field-next (codes "server_id") (setup.server_id s) c.logger
              (record c { server = some s }) next h d e in
          (s, refl, r.0, r.1)

  pub node_exists-next :
      (c : Context S N B K) (next : Next) (h : Handler) (d : Context S N B K)
      → node_exists setup c next ≡ handled h d
      → (n : N) × (look_up setup.nodes (c.param (codes "node")) ≡ some n)
        × (fields : List (Text × Text)) × (next (record c { node = some n; logger = some fields })
            ≡ handled h d)
  node_exists-next c next h d e = by_node (look_up setup.nodes (c.param (codes "node"))) e
    where
      by_node :
          (o : Option N)
          → found_node setup o c next ≡ handled h d
          → (n : N) × (o ≡ some n)
            × (fields : List (Text × Text)) × (next
                  (record c { node = some n; logger = some fields })
                ≡ handled h d)
      by_node none e = cc
      by_node (some n) e =
          let r =
            with_field-next (codes "node_id") (setup.node_id n) c.logger
              (record c { node = some n }) next h d e in
          (n, refl, r.0, r.1)

  pub blueprint_exists-next :
      (c : Context S N B K) (next : Next) (h : Handler) (d : Context S N B K)
      → blueprint_exists setup c next ≡ handled h d
      → (b : B) × (look_up setup.blueprints (c.param (codes "blueprint")) ≡ some b)
        × (fields : List (Text × Text)) × (next
              (record c { blueprint = some b; logger = some fields })
            ≡ handled h d)
  blueprint_exists-next c next h d e =
      by_blueprint (look_up setup.blueprints (c.param (codes "blueprint"))) e
    where
      by_blueprint :
          (o : Option B)
          → found_blueprint setup o c next ≡ handled h d
          → (b : B) × (o ≡ some b)
            × (fields : List (Text × Text)) × (next
                  (record c { blueprint = some b; logger = some fields })
                ≡ handled h d)
      by_blueprint none e = cc
      by_blueprint (some b) e =
          let r =
            with_field-next (codes "blueprint_id") (setup.blueprint_id b) c.logger
              (record c { blueprint = some b }) next h d e in
          (b, refl, r.0, r.1)
