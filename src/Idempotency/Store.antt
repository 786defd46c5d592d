-- ===== src/Idempotency/Store.antt =====
-- internal/idempotency/store.go: the store and its middleware. The handler behind it is an argument,
-- with its own state; it takes no time, so that two requests with the same key do not overlap. The reaper
-- is one call per tick. A header has one value.
use oauth4os.Common.{
  ℕ, ◌+◌, String, Bool, not, ◌&&◌, Option, none, some, ◌==◌, ◌!=◌, ltb, if◌then◌else◌,
}
use oauth4os.Common.Dict
use oauth4os.Common.Dict.{Dict, or_else}

-- What the middleware reads of a request; the handler sees more of it, in `rest`.
pub record Request (R : Type 0) : Type 0 where
  pub method : String
  pub idempotency_key : String
  pub rest : R

pub record Response : Type 0 where
  pub status : ℕ
  pub headers : Dict String
  pub body : String

pub record Entry : Type 0 where
  pub response : Response
  pub expires : ℕ

pub record Store : Type 0 where
  pub entries : Dict Entry
  pub ttl : ℕ

-- What the caller gets: the response of the handler, or one that was stored.
pub data Answer : Type 0 where
  fresh : Response → Answer
  replayed : Response → Answer

unfoldable pub new : ℕ → Store
new ttl = record { entries = Dict.empty; ttl = ttl }

abbrev pub applies_to : String → Bool
applies_to method = not (method != "POST" && (method != "PUT" && method != "PATCH"))

-- the stored response, while it is in time
abbrev pub live : ℕ → Option Entry → Option Response
live now none = none
live now (some e) = if ltb now e.expires then some e.response else none

-- what is stored of a response: of its headers only Content-Type, "" if it has none
abbrev pub stored : Response → Response
stored resp = record resp {
  headers = Dict.put Dict.empty "Content-Type" (or_else (Dict.get resp.headers "Content-Type") "");
}

-- what is written for a stored response
abbrev pub marked : Response → Response
marked e = record e { headers = Dict.put e.headers "X-Idempotent-Replay" "true" }

abbrev pub kept : Store → String → Response → ℕ → Store
kept s key resp now = record s {
  entries = Dict.put s.entries key (record { response = stored resp; expires = now + s.ttl });
}

module _ {H R : Type 0} (next : H → Request R → H × Response) where
  unfoldable pub serve : Store → H → Request R → ℕ → Store × H × Answer
  serve s h r now =
      let (h', resp) = next h r in
      if not (applies_to r.method)
      then (s, h', fresh resp)
      else if r.idempotency_key == ""
      then (s, h', fresh resp)
      else elim (live now (Dict.get s.entries r.idempotency_key)) [
        | some old ↦ (s, h, replayed (marked old))
        | none ↦ (kept s r.idempotency_key resp now, h', fresh resp)
      ]

unfoldable pub reap : Store → ℕ → Store
reap s now = record s { entries = Dict.sweep s.entries (λ e. ltb e.expires now) }
