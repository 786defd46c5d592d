-- ===== src/Registration/Examples.antt =====
-- internal/registration/handler.go: the theorems at one client and one allowed scope.
use oauth4os.Common.{String, ◌≡◌, ◌⊎◌, refl, true, none, some, [], ◌∷◌, subset}
use oauth4os.Common.Dict
use oauth4os.Token.State.{Client, new_manager}
use oauth4os.Token.Clients.{authenticate_client}
use oauth4os.Registration.Handler.{
  Request, Response, Handler, new_handler, register, rotate_secret, update, split_scope,
  response_of,
}
use oauth4os.Registration.Access.{known, register-Usable, update-rotate_secret}

abbrev request : String → Request
request scope = record {
  client_name = "app";
  redirect_uris = none;
  grant_types = [];
  scope = scope;
}

abbrev empty_handler : Handler
empty_handler = new_handler new_manager ("read:logs" ∷ [])

abbrev resp : Response
resp = response_of (request "read:logs") "1" "s1" 5

abbrev handler : Handler
handler = (register empty_handler (some (request "read:logs")) "1" "s1" 5).0

register-Usable_example :
    (authenticate_client handler.manager "client_1" "s1" ≡ none)
    × (known handler "client_1"
        ≡ some (record {
          id = "client_1";
          secret = "s1";
          scopes = split_scope "read:logs";
          redirect_uris = [];
        }))
    × ((empty_handler.allowed_scopes ≡ [])
        ⊎ (subset (split_scope "read:logs") empty_handler.allowed_scopes ≡ true))
unfolding register new_handler
register-Usable_example = register-Usable empty_handler (request "read:logs") "1" "s1" 5 resp refl

update-rotate_secret_example :
    (client : Client) × (known
        (rotate_secret (update handler "client_1" (some (request "admin"))).0 "client_1" "s2").0
        "client_1"
      ≡ some client)
    × (client.scopes ≡ split_scope "admin")
    × (client.secret ≡ "s2")
unfolding register new_handler Dict.get Dict.put Dict.empty
update-rotate_secret_example =
    update-rotate_secret handler "client_1" "s2" resp (request "admin") refl refl
