-- ===== src/Cache/Store.antt =====
-- internal/cache/cache.go: the cache. A body is a text; the reaper is one call per tick.
use oauth4os.Common.{
  ℕ, ◌+◌, String, Bool, ◌||◌, Option, none, some, List, [], ◌∷◌, ◌==◌, ltb, leb, if◌then◌else◌,
}
use oauth4os.Common.Dict
use oauth4os.Common.Dict.{Dict, size}

pub record Entry : Type 0 where
  pub body : String
  pub status_code : ℕ
  pub header : Dict String
  pub expires_at : ℕ

pub record Cache : Type 0 where
  pub entries : Dict Entry
  pub ttl : ℕ
  pub max_size : ℕ

unfoldable pub new : ℕ → ℕ → Cache
new ttl max_size = record { entries = Dict.empty; ttl = ttl; max_size = max_size }

abbrev pub expired : ℕ → Entry → Bool
expired now e = ltb e.expires_at now

unfoldable pub get : Cache → String → ℕ → Option Entry
get c key now = elim (Dict.get c.entries key) [
  | none ↦ none
  | some e ↦ if expired now e then none else some e
]

-- the loop over the entries: the key of the oldest so far ("" before the first), and its time
unfoldable pub oldest_from : List (String × Entry) → String → ℕ → String
oldest_from [] oldest oldest_time = oldest
oldest_from ((k, v) ∷ rest) oldest oldest_time =
    let older = oldest == "" || ltb v.expires_at oldest_time in
    oldest_from rest (if older then k else oldest) (if older then v.expires_at else oldest_time)

unfoldable pub evict : Cache → Dict Entry
unfolding oldest_from
evict c =
    if leb c.max_size (size c.entries)
    then Dict.remove c.entries (oldest_from c.entries.range "" 0)
    else c.entries

unfoldable pub set : Cache → String → ℕ → Dict String → String → ℕ → Cache
unfolding evict
set c key status_code header body now = record c {
  entries = Dict.put (evict c) key (record {
    body = body;
    status_code = status_code;
    header = header;
    expires_at = now + c.ttl;
  });
}

unfoldable pub reap : Cache → ℕ → Cache
reap c now = record c { entries = Dict.sweep c.entries (expired now) }
