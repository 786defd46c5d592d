-- ===== src/Ciba/Handler.antt =====
-- internal/ciba/handler.go: the handler. The issuer of tokens is an argument, with its own state;
-- times are numbers of nanoseconds. A request is reached by its id only.
use oauth4os.Common.{
  ℕ, ◌+◌, ◌*◌, String, Bool, true, false, not, ◌||◌, none, some, List, ◌==◌, ltb, nat_eq,
  if◌then◌else◌,
}
use oauth4os.Common.Dict
use oauth4os.Common.Dict.{Dict}
use oauth4os.Common.Text.{fields_by}

pub record AuthRequest : Type 0 where
  pub request_id : String
  pub client_id : String
  pub subject : String
  pub scopes : List String
  pub expires_at : ℕ
  pub approved : Bool
  pub denied : Bool

pub record Handler : Type 0 where
  pub requests : Dict AuthRequest

pub data Answer : Type 0 where
  failed : ℕ → String → Answer
  started : String → Answer
  tokens : String → String → Answer
  status_ok : Answer

unfoldable pub new_handler : Handler
new_handler = record { requests = Dict.empty }

-- splitScope: only the space separates
unfoldable pub split_scope : String → List String
unfolding fields_by
split_scope s = fields_by (λ c. nat_eq c b' ') s

abbrev pub five_minutes : ℕ
five_minutes = 300 * 1000000000

abbrev pub new_request : String → String → String → String → ℕ → AuthRequest
new_request client_id login_hint scope id now = record {
  request_id = id;
  client_id = client_id;
  subject = login_hint;
  scopes = split_scope scope;
  expires_at = now + five_minutes;
  approved = false;
  denied = false;
}

-- Initiate, with the random id as an argument
unfoldable pub initiate : Handler → String → String → String → String → ℕ → Handler × Answer
initiate h client_id login_hint scope id now =
    if client_id == "" || login_hint == "" then (h, failed 400 "invalid_request") else (
      record { requests = Dict.put h.requests id (new_request client_id login_hint scope id now) },
      started id,
    )

-- What Poll has decided when it gives the lock back: an answer, or a request to issue for.
pub data Look : Type 0 where
  answer : ℕ → String → Look
  ready : AuthRequest → Look

unfoldable pub poll_look : Handler → String → ℕ → Handler × Look
poll_look h id now = elim (Dict.get h.requests id) [
  | none ↦ (h, answer 400 "expired_token")
  | some r ↦
      if ltb r.expires_at now
      then (h, answer 400 "expired_token")
      else if r.denied
      then (record { requests = Dict.remove h.requests id }, answer 400 "access_denied")
      else if not r.approved
      then (h, answer 400 "authorization_pending")
      else (record { requests = Dict.remove h.requests id }, ready r)
]

abbrev pub decide : String → AuthRequest → AuthRequest
decide action r =
    if action == "deny" then record r { denied = true } else record r { approved = true }

unfoldable pub approve : Handler → String → String → Handler × Answer
approve h id action = (
  record { requests = Dict.adjust h.requests id (decide action) },
  elim (Dict.get h.requests id) [ none ↦ failed 404 "not_found" | some r ↦ status_ok ],
)

module _ {S : Type 0} (issue : S → String → List String → S × (String × String)) where
  abbrev pub poll_issue : Handler → S → Look → Handler × S × Answer
  poll_issue h s (answer code text) = (h, s, failed code text)
  poll_issue h s (ready r) =
      let (s', (access, refresh)) = issue s r.client_id r.scopes in (h, s', tokens access refresh)

  unfoldable pub poll : Handler → S → String → ℕ → Handler × S × Answer
  unfolding poll_look
  poll h s id now = let (h', look) = poll_look h id now in poll_issue h' s look
