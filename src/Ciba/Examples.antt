-- ===== src/Ciba/Examples.antt =====
-- internal/ciba/handler.go: the theorems at one request of a bank.
use oauth4os.Common.{
  ℕ, String, ◌≡◌, ◌≢◌, refl, false, ltb, List, [], ◌∷◌, ◌++◌, Any, All, some, ne_of_test,
}
use oauth4os.Common.Dict
use oauth4os.Ciba.Handler.{
  AuthRequest, new_handler, initiate, approve, poll, poll_look, ready, new_request,
}
use oauth4os.Ciba.History.{Event, initiated, polled, decided, after, Agreed, Denied, Story}
use oauth4os.Ciba.Outcomes.{tokens-Approved}

-- an issuer that counts its tokens
abbrev counted : ℕ → String → List String → ℕ × (String × String)
counted n client_id scopes = (n, (client_id, "refresh"))

abbrev agreed : List Event
agreed = decided "r1" "approve" ∷ initiated "bank" "ann" "pay" "r1" 0 ∷ []

abbrev later : List Event
later = polled "r1" 8 ∷ initiated "shop" "bob" "pay" "r2" 7 ∷ []

tokens-Approved_example :
    (r : AuthRequest) × (Dict.get (after agreed).requests "r1" ≡ some r)
    × (story : Story agreed "r1" r) × Any (Agreed "r1") story.since
    × All (λ e. ¬ Denied "r1" e) story.since
    × (ltb r.expires_at 5 ≡ false)
    × ((counted 3 r.client_id r.scopes).1 ≡ ("bank", "refresh"))
    × ((poll_look (after (later ++ polled "r1" 5 ∷ agreed)) "r1" 9).1
        ≢ ready (new_request "bank" "ann" "pay" "r1" 0))
unfolding poll poll_look approve initiate new_handler Dict.get Dict.put Dict.empty Dict.adjust
tokens-Approved_example =
    tokens-Approved counted later agreed 3 "r1" "bank" "refresh" 5 9
      (new_request "bank" "ann" "pay" "r1" 0) refl
      ((λ x. x), ((λ x. ne_of_test "r2" "r1" refl x.0), tt))
