-- ===== src/Par/Examples.antt =====
-- internal/par/handler.go: the theorems at one pushed request.
use oauth4os.Common.{
  String, ◌≡◌, refl, false, Bool, Option, none, some, List, [], ◌∷◌, arith, ne_of_test,
}
use oauth4os.Par.Handler.{Form, new_handler, request_uri, request_of, push, resolve, credentials}
use oauth4os.Par.Once.{Call, pushes, resolves, cleans, run, resolve-push}

abbrev form : String → Form
form secret = record {
  client_id = "app";
  client_secret = secret;
  basic_auth = none;
  scope = "read";
  redirect_uri = "https://app/cb";
  state = "x";
  code_challenge = "c";
  code_challenge_method = "S256";
}

abbrev secrets : Option (String → String → Bool)
secrets = some (λ id secret. false)

abbrev between : List Call
between = pushes (form "") "b" 2 ∷ resolves "other" 3 ∷ cleans 4 ∷ []

resolve-push_example :
    let found =
      resolve (run none (push none new_handler (form "s") "a" 1).0 between) (request_uri "a") 5 in
    (found.1 ≡ some (request_of (form "s") "app" 1))
    × ((resolve found.0 (request_uri "a") 6).1 ≡ none)
unfolding push credentials
resolve-push_example =
    resolve-push none new_handler between (form "s") "a" (request_uri "a") 1 5 6 refl
      (
        ne_of_test (request_uri "b") (request_uri "a") refl,
        (ne_of_test "other" (request_uri "a") refl, (omega arith, tt)),
      )
      (omega arith)
