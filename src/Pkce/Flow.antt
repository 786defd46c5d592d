-- ===== src/Pkce/Flow.antt =====
-- internal/pkce/handler.go: Authorize, Consent, Exchange and Cleanup. The random codes, the clock,
-- SHA-256 with base64url, and the two callbacks of the handler are arguments. Times are numbers of
-- nanoseconds; the clock does not run backwards, so `time.Since` is a truncated difference.
use Prim.Native.String.{◌++◌}
use oauth4os.Common.{
  ℕ, ◌-◌, String, Bool, false, not, ◌||◌, Option, none, some, List, ◌==◌, ◌!=◌, ltb, if◌then◌else◌,
}
use oauth4os.Common.Dict
use oauth4os.Common.Dict.{Dict}
use oauth4os.Common.Text.{has_suffix}
use oauth4os.Pkce.Scopes.{split_scopes}

pub record AuthCode : Type 0 where
  pub code : String
  pub client_id : String
  pub scopes : List String
  pub code_challenge : String
  pub code_challenge_method : String
  pub created_at : ℕ
  pub redirect_uri : String

pub record PendingConsent : Type 0 where
  pub id : String
  pub client_id : String
  pub scopes : List String
  pub code_challenge : String
  pub code_challenge_method : String
  pub redirect_uri : String
  pub state : String
  pub created_at : ℕ

-- A nil map of pending consents reads as an empty one.
pub record Handler : Type 0 where
  pub codes : Dict AuthCode
  pub pending : Dict PendingConsent

unfoldable pub new_handler : Handler
new_handler = record { codes = Dict.empty; pending = Dict.empty }

-- The redirect check, where there is one, and the issuer of tokens.
pub record Callbacks : Type 0 where
  pub validate_redirect : Option (String → String → Bool)
  pub issuer : String → List String → String × String

-- The query of GET /oauth/authorize.
pub record AuthorizeQuery : Type 0 where
  pub client_id : String
  pub code_challenge : String
  pub code_challenge_method : String
  pub redirect_uri : String
  pub scope : String
  pub state : String

pub data Reply : Type 0 where
  consent_page : String → String → List String → Reply
  redirect : String → Reply
  tokens : String → String → Reply
  failed : ℕ → String → String → Reply

abbrev pub invalid_request : String → Reply
invalid_request desc = failed 400 "invalid_request" desc

abbrev pub invalid_grant : String → Reply
invalid_grant desc = failed 400 "invalid_grant" desc

-- 10 minutes
abbrev pub lifetime : ℕ
lifetime = 600000000000

abbrev pub too_old : ℕ → ℕ → Bool
too_old created_at now = ltb lifetime (now - created_at)

abbrev pub uri_refused : Callbacks → String → String → Bool
uri_refused cb client_id uri = elim cb.validate_redirect [
  | none ↦ false
  | some valid ↦ not (valid client_id uri)
]

abbrev pub method_or_default : String → String
method_or_default m = if m == "" then "S256" else m

abbrev pub consent_of : AuthorizeQuery → String → ℕ → PendingConsent
consent_of q consent_id now = record {
  id = consent_id;
  client_id = q.client_id;
  scopes = split_scopes q.scope;
  code_challenge = q.code_challenge;
  code_challenge_method = method_or_default q.code_challenge_method;
  redirect_uri = q.redirect_uri;
  state = q.state;
  created_at = now;
}

unfoldable pub authorize : Callbacks → Handler → AuthorizeQuery → String → ℕ → Handler × Reply
authorize cb h q consent_id now =
    if q.client_id == "" || q.redirect_uri == ""
    then (h, invalid_request "client_id and redirect_uri required")
    else if uri_refused cb q.client_id q.redirect_uri
    then (h, invalid_request "redirect_uri not registered for client")
    else if method_or_default q.code_challenge_method != "S256"
    then (h, invalid_request "only S256 code_challenge_method supported")
    else (
      record h { pending = Dict.put h.pending consent_id (consent_of q consent_id now) },
      consent_page consent_id q.client_id (split_scopes q.scope),
    )

abbrev pub separator : String → String
separator uri = if has_suffix uri "?" then "" else "?"

abbrev pub state_param : String → String
state_param s = if s == "" then "" else "&state=" ++ s

abbrev pub denial : PendingConsent → String
denial pc =
    pc.redirect_uri
    ++ (separator pc.redirect_uri ++ ("error=access_denied" ++ state_param pc.state))

abbrev pub approval : PendingConsent → String → String
approval pc code =
    pc.redirect_uri ++ (separator pc.redirect_uri ++ ("code=" ++ (code ++ state_param pc.state)))

abbrev pub code_of : PendingConsent → String → ℕ → AuthCode
code_of pc code now = record {
  code = code;
  client_id = pc.client_id;
  scopes = pc.scopes;
  code_challenge = pc.code_challenge;
  code_challenge_method = pc.code_challenge_method;
  created_at = now;
  redirect_uri = pc.redirect_uri;
}

abbrev pub without_consent : Handler → String → Handler
without_consent h consent_id = record h { pending = Dict.remove h.pending consent_id }

-- A consent is taken out of the map by the first call that names it, whatever it then answers.
unfoldable pub consent : Handler → String → String → String → ℕ → Handler × Reply
consent h consent_id action code now = elim (Dict.get h.pending consent_id) [
  | none ↦ (h, invalid_request "consent expired or not found")
  | some pc ↦
      let taken = without_consent h consent_id in
      if too_old pc.created_at now
      then (taken, invalid_request "consent expired or not found")
      else if action != "approve"
      then (taken, redirect (denial pc))
      else (
        record taken { codes = Dict.put taken.codes code (code_of pc code now) },
        redirect (approval pc code),
      )
]

pub record ExchangeForm : Type 0 where
  pub code : String
  pub code_verifier : String
  pub redirect_uri : String

-- The checks on a code that was found; `none` if all pass. `s256` is base64url of SHA-256.
unfoldable pub check_code : (String → String) → AuthCode → ExchangeForm → ℕ → Option Reply
check_code s256 ac f now =
    if too_old ac.created_at now
    then some (invalid_grant "authorization code expired")
    else if ac.redirect_uri != f.redirect_uri
    then some (invalid_grant "redirect_uri mismatch")
    else if ac.code_challenge == ""
    then none
    else if f.code_verifier == ""
    then some (invalid_request "code_verifier required for PKCE")
    else if s256 f.code_verifier == ac.code_challenge
    then none
    else some (invalid_grant "code_verifier failed verification")

abbrev pub without_code : Handler → String → Handler
without_code h code = record h { codes = Dict.remove h.codes code }

abbrev pub both_tokens : String × String → Reply
both_tokens (access, refresh) = tokens access refresh

unfoldable pub exchange :
    (String → String) → Callbacks → Handler → ExchangeForm → ℕ → Handler × Reply
unfolding check_code
exchange s256 cb h f now =
    if f.code == "" then (h, invalid_request "code required") else elim (Dict.get h.codes f.code) [
      | none ↦ (h, invalid_grant "authorization code not found or already used")
      | some ac ↦ (
        without_code h f.code,
        elim (check_code s256 ac f now) [
          | some refusal ↦ refusal
          | none ↦ both_tokens (cb.issuer ac.client_id ac.scopes)
        ],
      )
    ]

abbrev pub old_code : ℕ → AuthCode → Bool
old_code now ac = too_old ac.created_at now

unfoldable pub cleanup : Handler → ℕ → Handler
cleanup h now = record h { codes = Dict.sweep h.codes (old_code now) }
