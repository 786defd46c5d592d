-- ===== src/Exchange/Handler.antt =====
-- internal/exchange/handler.go: the handler with its two adapters, together with the JWT validator and
-- the token manager that cmd/proxy/main.go gives it.
use Prim.Native.String.{◌++◌}
use oauth4os.Common.{ℕ, String, Bool, ◌&&◌, Option, none, some, List, ◌==◌, ◌!=◌, if◌then◌else◌}
use oauth4os.Common.Text.{fields, join}
use oauth4os.Token.State.{Manager, Draw}
use oauth4os.Token.Grant.{create_token_for_client}
use oauth4os.Jwt.Keys.{Attempt, ok}
use oauth4os.Jwt.Keys as Keys
use oauth4os.Jwt.Validator as Jwt
use oauth4os.Jwt.Validator.{Validator}

pub record Form : Type 0 where
  pub subject_token : String
  pub subject_token_type : String
  pub actor_token : String
  pub scope : String

pub record SubjectClaims : Type 0 where
  pub subject : String
  pub issuer : String
  pub scopes : List String

-- What the handler is given: the proxy's validator and its token manager.
pub record Parts : Type 0 where
  pub validator : Validator
  pub manager : Manager

pub record Granted : Type 0 where
  pub access_token : String
  pub scope : String
  pub act : Option String

pub data Answer : Type 0 where
  failed : ℕ → String → Answer
  granted : Granted → Answer

abbrev pub access_token_type : String
access_token_type = "urn:ietf:params:oauth:token-type:access_token"

abbrev pub id_token_type : String
id_token_type = "urn:ietf:params:oauth:token-type:id_token"

abbrev pub jwt_token_type : String
jwt_token_type = "urn:ietf:params:oauth:token-type:jwt"

abbrev pub default_type : String → String
default_type t = if t == "" then access_token_type else t

abbrev pub unsupported : String → Bool
unsupported t = t != access_token_type && (t != id_token_type && t != jwt_token_type)

abbrev pub subject_of : Attempt Jwt.Claims → Option SubjectClaims
subject_of (ok c) = some (record { subject = c.client_id; issuer = c.issuer; scopes = c.scopes })
subject_of (Keys.failed e) = none

-- those of the request, or else those of the subject token
abbrev pub scopes_for : String → SubjectClaims → List String
scopes_for requested c = if requested == "" then c.scopes else fields requested

module _ (lib : Jwt.Library) (d : Draw) where
  -- JWTSubjectValidator.ValidateSubject with the callback of the proxy
  unfoldable pub validate_subject : Parts → String → Parts × Option SubjectClaims
  validate_subject p token =
      let (v, result) = Jwt.validate lib p.validator token d.now in
      (record p { validator = v }, subject_of result)

  -- the actor, if there is an actor token: its subject, or a failure
  abbrev pub actor : Parts → String → Parts × Option (Option String)
  actor p token =
      if token == ""
      then (p, some none)
      else let (p', claims) = validate_subject p token in
        (p', elim claims [ none ↦ none | some c ↦ some (some c.subject) ])

  -- ManagerAdapter.IssueExchangeToken with the callback of the proxy
  unfoldable pub issue_exchange_token : Parts → SubjectClaims → List String → Parts × String
  issue_exchange_token p c scopes =
      let (m, tok, refresh) =
        create_token_for_client p.manager d (c.subject ++ ("@" ++ c.issuer)) scopes in
      (record p { manager = m }, tok.id)

  abbrev pub issue : Parts → SubjectClaims → String → Option String → Parts × Answer
  issue p c requested act =
      let scopes = scopes_for requested c in
      let (p', id) = issue_exchange_token p c scopes in
      (p', granted (record { access_token = id; scope = join scopes " "; act = act }))

  -- ServeHTTP
  unfoldable pub serve : Parts → Form → Parts × Answer
  unfolding validate_subject issue_exchange_token
  serve p f =
      if f.subject_token == ""
      then (p, failed 400 "invalid_request")
      else if unsupported (default_type f.subject_token_type)
      then (p, failed 400 "invalid_request")
      else let (p', claims) = validate_subject p f.subject_token in
        elim claims [
          | none ↦ (p', failed 401 "invalid_grant")
          | some c ↦
              let (p'', act) = actor p' f.actor_token in
              elim act [ none ↦ (p'', failed 401 "invalid_grant") | some a ↦ issue p'' c f.scope a ]
        ]
