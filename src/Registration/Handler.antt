-- ===== src/Registration/Handler.antt =====
-- internal/registration/handler.go: the handler, together with the token manager that its callback
-- registers clients at. Random texts are arguments; a body that does not decode is `none`.
use Prim.Native.String.{◌++◌}
use oauth4os.Common.{
  ℕ, String, Option, none, some, List, [], ◌∷◌, map, ◌==◌, nat_eq, contains, if◌then◌else◌,
}
use oauth4os.Common.Dict
use oauth4os.Common.Dict.{Dict}
use oauth4os.Common.Text.{fields_by}
use oauth4os.Token.State.{Manager}
use oauth4os.Token.Clients.{register_client}

-- A list that is missing in the body is empty; `redirect_uris` tells the two apart.
pub record Request : Type 0 where
  pub client_name : String
  pub redirect_uris : Option (List String)
  pub grant_types : List String
  pub scope : String

pub record Response : Type 0 where
  pub client_id : String
  pub client_secret : String
  pub client_name : String
  pub redirect_uris : List String
  pub grant_types : List String
  pub scope : String
  pub issued_at : ℕ

pub record Handler : Type 0 where
  pub clients : Dict Response
  pub allowed_scopes : List String
  pub manager : Manager

pub data Answer : Type 0 where
  failed : ℕ → String → String → Answer
  created : Response → Answer
  shown : Response → Answer
  listed : List Response → Answer
  deleted : Answer
  rotated : String → String → Answer

unfoldable pub new_handler : Manager → List String → Handler
new_handler manager allowed_scopes = record {
  clients = Dict.empty;
  allowed_scopes = allowed_scopes;
  manager = manager;
}

-- splitScope: only the space separates
unfoldable pub split_scope : String → List String
unfolding fields_by
split_scope s = fields_by (λ c. nat_eq c b' ') s

abbrev pub uris_or_none : Option (List String) → List String
uris_or_none none = []
uris_or_none (some uris) = uris

abbrev pub grants_or_default : List String → List String
grants_or_default [] = "client_credentials" ∷ []
grants_or_default (g ∷ gs) = g ∷ gs

-- the first scope that is not allowed; with nothing allowed, all are
unfoldable pub first_refused : List String → List String → Option String
first_refused [] scopes = none
first_refused (a ∷ allowed) [] = none
first_refused (a ∷ allowed) (s ∷ scopes) =
    let rest = first_refused (a ∷ allowed) scopes in
    if contains (a ∷ allowed) s then rest else some s

abbrev pub response_of : Request → String → String → ℕ → Response
response_of req id secret now = record {
  client_id = "client_" ++ id;
  client_secret = secret;
  client_name = req.client_name;
  redirect_uris = uris_or_none req.redirect_uris;
  grant_types = grants_or_default req.grant_types;
  scope = req.scope;
  issued_at = now;
}

-- Register, with the random texts of the id and the secret
unfoldable pub register : Handler → Option Request → String → String → ℕ → Handler × Answer
unfolding split_scope first_refused
register h none id secret now = (h, failed 400 "invalid_client_metadata" "malformed JSON")
register h (some req) id secret now =
    if req.client_name == ""
    then (h, failed 400 "invalid_client_metadata" "client_name required")
    else let resp = response_of req id secret now in
      let scopes = split_scope req.scope in
      elim (first_refused h.allowed_scopes scopes) [
        | some s ↦ (h, failed 400 "invalid_client_metadata" ("scope not allowed: " ++ s))
        | none ↦ (
          record h {
            clients = Dict.put h.clients resp.client_id resp;
            manager = register_client h.manager resp.client_id secret scopes resp.redirect_uris;
          },
          created resp,
        )
      ]

abbrev pub safe : Response → Response
safe c = record c { client_secret = "" }

abbrev pub not_found : Answer
not_found = failed 404 "invalid_client" "client not found"

unfoldable pub get : Handler → String → Answer
get h client_id = elim (Dict.get h.clients client_id) [ none ↦ not_found | some c ↦ shown (safe c) ]

abbrev pub safe_entry : String × Response → Response
safe_entry (id, c) = safe c

unfoldable pub list : Handler → Answer
list h = listed (map safe_entry h.clients.range)

unfoldable pub delete : Handler → String → Handler × Answer
delete h client_id =
    let h' = record h { clients = Dict.remove h.clients client_id } in
    elim (Dict.get h.clients client_id) [ none ↦ (h', not_found) | some c ↦ (h', deleted) ]

-- RotateSecret, with the random text of the new secret
unfoldable pub rotate_secret : Handler → String → String → Handler × Answer
unfolding split_scope
rotate_secret h client_id new_secret = elim (Dict.get h.clients client_id) [
  | none ↦ (h, not_found)
  | some c ↦ (
    record h {
      clients = Dict.adjust h.clients client_id (λ x. record x { client_secret = new_secret });
      manager =
          register_client h.manager client_id new_secret (split_scope c.scope) c.redirect_uris;
    },
    rotated client_id new_secret,
  )
]

abbrev pub updated : Request → Response → Response
updated req c = record c {
  client_name = if req.client_name == "" then c.client_name else req.client_name;
  redirect_uris = elim req.redirect_uris [ none ↦ c.redirect_uris | some uris ↦ uris ];
  scope = if req.scope == "" then c.scope else req.scope;
}

unfoldable pub update : Handler → String → Option Request → Handler × Answer
update h client_id none = (h, failed 400 "invalid_client_metadata" "malformed JSON")
update h client_id (some req) = elim (Dict.get h.clients client_id) [
  | none ↦ (h, not_found)
  | some c ↦ (
    record h { clients = Dict.adjust h.clients client_id (updated req) },
    shown (safe (updated req c)),
  )
]
