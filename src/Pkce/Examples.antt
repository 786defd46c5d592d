-- ===== src/Pkce/Examples.antt =====
-- The theorems on the authorization code flow at one client that asks, is approved and exchanges.
use Prim.Native.String.{◌++◌}
use oauth4os.Common.{String, ◌≡◌, refl, inr, Bool, some, List, [], ◌∷◌, arith, ◌==◌, ne_of_test}
use oauth4os.Common.Dict
use oauth4os.Common.Text.{has_suffix}
use oauth4os.Pkce.Scopes.{split_scopes, split, split_loop, drop_empty}
use oauth4os.Pkce.Flow.{
  AuthCode, Handler, Callbacks, AuthorizeQuery, ExchangeForm, tokens, new_handler, authorize,
  consent, exchange,
}
use oauth4os.Pkce.Codes.{Passes, exchange_iff}
use oauth4os.Pkce.Origin.{Call, authorizes, consents, step, run, Registered, exchange-Registered}

abbrev hash : String → String
hash v = "h" ++ v

abbrev valid_uri : String → String → Bool
valid_uri client uri = uri == "https://app/cb"

abbrev issue : String → List String → String × String
issue client scopes = ("at-" ++ client, "rt-" ++ client)

abbrev callbacks : Callbacks
callbacks = record { validate_redirect = some valid_uri; issuer = issue }

abbrev query : AuthorizeQuery
query = record {
  client_id = "app";
  code_challenge = "hverifier";
  code_challenge_method = "S256";
  redirect_uri = "https://app/cb";
  scope = "read  write";
  state = "xyz";
}

abbrev requests : List Call
requests = authorizes query "c1" 10 ∷ consents "c1" "approve" "k1" 20 ∷ []

abbrev ready : Handler
ready = run hash callbacks new_handler requests

abbrev form : ExchangeForm
form = record { code = "k1"; code_verifier = "verifier"; redirect_uri = "https://app/cb" }

abbrev stored : AuthCode
stored = record {
  code = "k1";
  client_id = "app";
  scopes = "read" ∷ "write" ∷ [];
  code_challenge = "hverifier";
  code_challenge_method = "S256";
  created_at = 20;
  redirect_uri = "https://app/cb";
}

code_stored : Dict.get ready.codes "k1" ≡ some stored
unfolding run step authorize consent new_handler Dict.get Dict.put Dict.remove Dict.empty
    split_scopes split split_loop drop_empty has_suffix
code_stored = refl

form-Passes : Passes hash stored form 30
form-Passes = record {
  young = omega arith;
  same_uri = refl;
  proof = inr (ne_of_test _ _ refl, refl);
}

exchange_iff_example : (exchange hash callbacks ready form 30).1 ≡ tokens "at-app" "rt-app"
exchange_iff_example =
    (exchange_iff hash callbacks ready form 30 "at-app" "rt-app").1
      (ne_of_test _ _ refl, stored, code_stored, form-Passes, refl)

abbrev asked : Handler
asked = run hash callbacks new_handler (authorizes query "c1" 10 ∷ [])

exchange-Registered_example :
    (ac : AuthCode) × (Dict.get (run hash callbacks new_handler requests).codes form.code ≡ some ac)
    × (callbacks.issuer ac.client_id ac.scopes ≡ ("at-app", "rt-app"))
    × Registered callbacks ac.client_id "https://app/cb"
    × (ac.code_challenge_method ≡ "S256")
exchange-Registered_example =
    exchange-Registered hash callbacks requests form 30 "at-app" "rt-app" exchange_iff_example
