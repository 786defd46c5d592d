-- ===== src/Idempotency/Examples.antt =====
-- internal/idempotency/store.go: the theorem at two orders under one key.
use oauth4os.Common.{ℕ, ◌+◌, String, ◌≡◌, refl, List, [], ◌∷◌, arith}
use oauth4os.Common.Dict
use oauth4os.Idempotency.Store.{Request, Response, new, serve, replayed, stored, marked}
use oauth4os.Idempotency.Replay.{Call, requests, ticks, run, serve-replayed}

abbrev order : String → Request String
order what = record { method = "POST"; idempotency_key = "k1"; rest = what }

abbrev answer_of : String → Response
answer_of what = record {
  status = 201;
  headers = Dict.put (Dict.put Dict.empty "Location" "/orders/1") "Content-Type" "text/plain";
  body = what;
}

abbrev counts : ℕ → Request String → ℕ × Response
counts n r = (n + 1, answer_of r.rest)

abbrev between : List (Call String)
between = requests (record { method = "GET"; idempotency_key = ""; rest = "look" }) 5 ∷ ticks 6 ∷ []

serve-replayed_example :
    let first = serve counts (new 10) 0 (order "tea") 3 in
    let (s', h') = run counts (first.0, first.1) between in
    serve counts s' h' (order "coffee") 9 ≡ (s', h', replayed (marked (stored (answer_of "tea"))))
unfolding serve new Dict.get Dict.empty
serve-replayed_example =
    serve-replayed counts (new 10) 0 (order "tea") (order "coffee") between 3 9 _ refl refl refl
      refl refl (omega arith, (omega arith, tt)) (omega arith)
