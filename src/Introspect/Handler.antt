-- ===== src/Introspect/Handler.antt =====
-- internal/introspect/handler.go: the handler, the adapter of the token manager, and the cache. Times
-- are numbers of nanoseconds, and the clock does not run backwards.
use oauth4os.Common.{
  ℕ, ◌-◌, ◌*◌, String, Bool, true, false, not, ◌||◌, Option, none, some, ◌==◌, ◌!=◌, ltb, nat_eq,
  if◌then◌else◌,
}
use oauth4os.Common.Dict
use oauth4os.Common.Dict.{Dict, or_else}
use oauth4os.Common.Text.{join}
use oauth4os.Token.State.{Token, Manager, unix}
use oauth4os.Token.Maintain.{lookup}

pub record Response : Type 0 where
  pub active : Bool
  pub scope : String
  pub client_id : String
  pub sub : String
  pub exp : ℕ
  pub iat : ℕ
  pub iss : String
  pub token_type : String

abbrev pub inactive : Response
inactive = record {
  active = false;
  scope = "";
  client_id = "";
  sub = "";
  exp = 0;
  iat = 0;
  iss = "";
  token_type = "";
}

-- The parts of a request that are read: the form, and the basic header.
pub record Request : Type 0 where
  pub method : String
  pub basic_auth : Option (String × String)
  pub client_id : String
  pub client_secret : String
  pub token : String

pub data Answer : Type 0 where
  method_not_allowed : Answer
  invalid_client : Answer
  shown : Response → Answer

abbrev pub credentials : Request → String × String
credentials r = or_else r.basic_auth (r.client_id, r.client_secret)

abbrev pub refused : Option (String → String → Bool) → Request → Bool
refused none r = false
refused (some authenticates) r = not (authenticates (credentials r).0 (credentials r).1)

-- ServeHTTP, for a lookup and an authentication of clients (`none` for none)
unfoldable pub serve :
    (String → Option Response) → Option (String → String → Bool) → Request → Answer
serve look client_auth r =
    if r.method != "POST"
    then method_not_allowed
    else if refused client_auth r
    then invalid_client
    else if r.token == ""
    then shown inactive
    else shown (or_else (look r.token) inactive)

abbrev pub response_of : Token → Response
response_of tok = record {
  active = true;
  scope = join tok.scopes " ";
  client_id = tok.client_id;
  sub = tok.client_id;
  exp = unix tok.expires_at;
  iat = unix tok.created_at;
  iss = "";
  token_type = "Bearer";
}

-- ManagerAdapter.Introspect
unfoldable pub introspect : Manager → String → ℕ → Response
introspect m token now = elim (lookup m token) [
  | none ↦ inactive
  | some tok ↦ if tok.revoked || ltb tok.expires_at now then inactive else response_of tok
]

pub record CacheEntry : Type 0 where
  pub resp : Response
  pub at_time : ℕ

pub record CachedLookup : Type 0 where
  pub ttl : ℕ
  pub cache : Dict CacheEntry

abbrev pub default_ttl : ℕ
default_ttl = 30 * 1000000000

unfoldable pub new_cached_lookup : ℕ → CachedLookup
new_cached_lookup ttl = record {
  ttl = if nat_eq ttl 0 then default_ttl else ttl;
  cache = Dict.empty;
}

-- CachedLookup.Introspect, for what the inner lookup answers at the time
unfoldable pub cached_introspect :
    (String → ℕ → Response) → CachedLookup → String → ℕ → CachedLookup × Response
cached_introspect inner c token now =
    let resp = inner token now in
    let fetched = record c {
      cache = Dict.put c.cache token (record { resp = resp; at_time = now });
    } in
    elim (Dict.get c.cache token) [
      | none ↦ (fetched, resp)
      | some e ↦ if ltb (now - e.at_time) c.ttl then (c, e.resp) else (fetched, resp)
    ]
