-- ===== src/RateLimit/Examples.antt =====
-- The bound on requests at a client with a limit of two a minute, beside another client.
use oauth4os.Common.{List, [], ◌∷◌}
use oauth4os.Common.Dict
use oauth4os.RateLimit.Limiter.{Limiter, new}
use oauth4os.RateLimit.Bounds.{Call}

abbrev limiter : Limiter
limiter = new (Dict.put Dict.empty "search" 2) 100

abbrev first : Call
first = record { client = "app"; scopes = "search" ∷ []; now = 1000 }

abbrev later : List Call
later =
    record { client = "cli"; scopes = []; now = 1500 }
    ∷ record { client = "app"; scopes = "admin" ∷ []; now = 2000 }
    ∷ record { client = "app"; scopes = "search" ∷ []; now = 30000002000 }
    ∷ []
