-- ===== src/Token/Clients.antt =====
-- internal/token/manager.go: registered clients, their authentication, scopes and redirect URIs.
use oauth4os.Common.{
  String, Bool, true, false, Option, none, some, List, [], ◌∷◌, map, ◌==◌, contains, subset,
  if◌then◌else◌,
}
use oauth4os.Common.Dict
use oauth4os.Token.State.{Client, Manager, Form}

unfoldable pub register_client : Manager → String → String → List String → List String → Manager
register_client m id secret scopes redirect_uris = record m {
  clients =
      Dict.put m.clients id
        (record { id = id; secret = secret; scopes = scopes; redirect_uris = redirect_uris });
}

abbrev pub snd_client : String × Client → Client
snd_client (id, c) = c

unfoldable pub clients : Manager → List Client
clients m = map snd_client m.clients.range

-- `len(client.RedirectURIs) == 0` fails the loop too, and is written out as in the source.
abbrev pub registered_uri : List String → String → Bool
registered_uri [] uri = false
registered_uri (u ∷ us) uri = contains (u ∷ us) uri

unfoldable pub validate_redirect_uri : Manager → String → String → Bool
validate_redirect_uri m client_id uri = elim (Dict.get m.clients client_id) [
  | none ↦ false
  | some client ↦ registered_uri client.redirect_uris uri
]

pub data OAuthError : Type 0 where
  invalid_client invalid_scope : OAuthError

-- ConstantTimeCompare is equality of the two texts.
unfoldable pub authenticate_client : Manager → String → String → Option OAuthError
authenticate_client m client_id secret = elim (Dict.get m.clients client_id) [
  | none ↦ some invalid_client
  | some client ↦ if client.secret == secret then none else some invalid_client
]

-- A client with no scopes is not restricted.
abbrev pub allows : List String → List String → Bool
allows [] requested = true
allows (s ∷ ss) requested = subset requested (s ∷ ss)

unfoldable pub validate_scopes : Manager → String → List String → Option OAuthError
validate_scopes m client_id requested = elim (Dict.get m.clients client_id) [
  | none ↦ some invalid_client
  | some client ↦ if allows client.scopes requested then none else some invalid_scope
]

-- client_id and client_secret of the form, or those of the basic header if the form has no id
unfoldable pub credentials : Form → String × String
credentials f = elim f.basic_auth [
  | none ↦ (f.client_id, f.client_secret)
  | some (id, secret) ↦ if f.client_id == "" then (id, secret) else (f.client_id, f.client_secret)
]

pub record ClientInfo : Type 0 where
  pub client_id : String
  pub scopes : List String
  pub redirect_uris : List String

abbrev pub info : String × Client → ClientInfo
info (id, c) = record { client_id = c.id; scopes = c.scopes; redirect_uris = c.redirect_uris }

unfoldable pub list_clients : Manager → List ClientInfo
list_clients m = map info m.clients.range
