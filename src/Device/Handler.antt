-- ===== src/Device/Handler.antt =====
-- internal/device/handler.go: the handler, with the pointers that its two maps share. An address is a
-- number; `object` is what stands at it. The issuer of tokens is an argument, with its own state. The
-- HTML pages are not modelled. Times are numbers of nanoseconds.
use oauth4os.Common.{
  ℕ, ◌+◌, ◌*◌, String, Bool, true, false, not, Option, none, some, List, [], ◌∷◌, ◌==◌, ◌!=◌, ltb,
  nat_eq, if◌then◌else◌,
}
use oauth4os.Common.Dict
use oauth4os.Common.Dict.{Dict}
use oauth4os.Common.Text.{fields}

pub record Code : Type 0 where
  pub device_code : String
  pub user_code : String
  pub client_id : String
  pub scopes : List String
  pub expires_at : ℕ
  pub approved : Bool
  pub denied : Bool

pub record Handler : Type 0 where
  pub codes : Dict ℕ
  pub by_user : Dict ℕ
  pub next : ℕ
  pub object : ℕ → Code

pub data Answer : Type 0 where
  failed : String → Answer
  codes_made : String → String → Answer
  tokens : String → String → Answer
  page : Bool → Answer

abbrev blank : Code
blank = record {
  device_code = "";
  user_code = "";
  client_id = "";
  scopes = [];
  expires_at = 0;
  approved = false;
  denied = false;
}

unfoldable pub new_handler : Handler
new_handler = record { codes = Dict.empty; by_user = Dict.empty; next = 0; object = λ a. blank }

-- a write through a pointer
abbrev pub write : (ℕ → Code) → ℕ → Code → ℕ → Code
write object a c b = if nat_eq a b then c else object b

abbrev pub ten_minutes : ℕ
ten_minutes = 600 * 1000000000

abbrev pub new_code : String → String → String → String → ℕ → Code
new_code client_id scope dc uc now = record {
  device_code = dc;
  user_code = uc;
  client_id = client_id;
  scopes = fields scope;
  expires_at = now + ten_minutes;
  approved = false;
  denied = false;
}

-- RequestCode, with the two random codes as arguments
unfoldable pub request_code : Handler → String → String → String → String → ℕ → Handler × Answer
request_code h client_id scope dc uc now =
    if client_id == "" then (h, failed "invalid_request") else (
      record {
        codes = Dict.put h.codes dc h.next;
        by_user = Dict.put h.by_user uc h.next;
        next = h.next + 1;
        object = write h.object h.next (new_code client_id scope dc uc now);
      },
      codes_made dc uc,
    )

abbrev pub device_grant : String
device_grant = "urn:ietf:params:oauth:grant-type:device_code"

-- What PollToken has decided when it is about to call the issuer: to answer, or the address of the code.
pub data Look : Type 0 where
  answer : String → Look
  ready : ℕ → Look

-- the tests of an object that the device code points to
abbrev pub look_at : (ℕ → Code) → Option ℕ → ℕ → Look
look_at object none now = answer "expired_token"
look_at object (some a) now =
    if ltb (object a).expires_at now
    then answer "expired_token"
    else if (object a).denied
    then answer "access_denied"
    else if not (object a).approved
    then answer "authorization_pending"
    else ready a

-- PollToken up to its call of the issuer; the lock is held for the lookup only
unfoldable pub poll_look : Handler → String → String → ℕ → Look
poll_look h grant dc now =
    if grant != device_grant
    then answer "unsupported_grant_type"
    else look_at h.object (Dict.get h.codes dc) now

-- the deletes after the tokens are issued
unfoldable pub clean_up : Handler → String → Code → Handler
clean_up h dc c = record h {
  codes = Dict.remove h.codes dc;
  by_user = Dict.remove h.by_user c.user_code;
}

-- Approve: anything but "deny" approves
abbrev pub decide : String → Code → Code
decide action c =
    if action == "deny" then record c { denied = true } else record c { approved = true }

unfoldable pub approve : Handler → String → String → Handler × Answer
approve h uc action = elim (Dict.get h.by_user uc) [
  | none ↦ (h, page false)
  | some a ↦ (record h { object = write h.object a (decide action (h.object a)) }, page true)
]

abbrev pub expired : Handler → ℕ → ℕ → Bool
expired h now a = ltb (h.object a).expires_at now

-- the deletes of Cleanup in the map of user codes
abbrev pub drop_users : Handler → ℕ → List (String × ℕ) → Dict ℕ → Dict ℕ
drop_users h now [] users = users
drop_users h now ((dc, a) ∷ rest) users =
    drop_users h now rest
      (if expired h now a then Dict.remove users (h.object a).user_code else users)

-- Cleanup: the one loop, written out for each of the two maps
unfoldable pub cleanup : Handler → ℕ → Handler
cleanup h now = record h {
  codes = Dict.sweep h.codes (expired h now);
  by_user = drop_users h now h.codes.range h.by_user;
}

module _ {S : Type 0} (issue : S → String → List String → S × (String × String)) where
  -- PollToken from its call of the issuer on
  abbrev pub poll_finish : Handler → S → String → Look → Handler × S × Answer
  poll_finish h s dc (answer text) = (h, s, failed text)
  poll_finish h s dc (ready a) =
      let (s', (access, refresh)) = issue s (h.object a).client_id (h.object a).scopes in
      (clean_up h dc (h.object a), s', tokens access refresh)

  -- PollToken, with no other call between its two parts
  unfoldable pub poll_token : Handler → S → String → String → ℕ → Handler × S × Answer
  unfolding poll_look clean_up
  poll_token h s grant dc now = poll_finish h s dc (poll_look h grant dc now)
