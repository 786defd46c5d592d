-- ===== src/Token/StoreExamples.antt =====
-- The theorem on the file of clients at one Save whose last rename fails.
use oauth4os.Common.{
  String, ◌≡◌, refl, inl, true, false, Option, some, List, [], ◌∷◌, ◌==◌, ne_of_test, if◌then◌else◌,
}
use oauth4os.Common.Dict
use oauth4os.Common.Dict.{Dict}
use oauth4os.Token.State.{Client}
use oauth4os.Token.Store.{Json, Luck, recover, save}
use oauth4os.Token.Recovery.{RoundTrip, Holds, save_recovers}

abbrev named : String → Client
named id = record { id = id; secret = "hush"; scopes = []; redirect_uris = [] }

-- A notation for lists of at most one client.
abbrev write_first : List Client → String
write_first [] = "[]"
write_first (c ∷ cs) = c.id

abbrev read_first : String → Option (List Client)
read_first s = if s == "[]" then some [] else some (named s ∷ [])

abbrev json : Json
json = record { marshal = write_first; unmarshal = read_first }

abbrev disk : Dict String
disk = Dict.put Dict.empty "clients.json" "[]"

abbrev unlucky : Luck
unlucky = record { backs_up = true; writes = true; renames = false }

no_client-RoundTrip : RoundTrip json []
no_client-RoundTrip = record { again = refl; full = ne_of_test _ _ refl }

one_client-RoundTrip : RoundTrip json (named "app" ∷ [])
one_client-RoundTrip = record { again = refl; full = ne_of_test _ _ refl }

disk-Holds : Holds json disk "clients.json" []
unfolding Dict.get Dict.put Dict.empty
disk-Holds = inl refl

save_recovers_example :
    recover json (save json unlucky disk "clients.json" "7" (named "app" ∷ [])).0 "clients.json"
    ≡ some []
unfolding save
save_recovers_example =
    (save_recovers json unlucky disk "clients.json" "7" (named "app" ∷ []) [] no_client-RoundTrip
      one_client-RoundTrip disk-Holds).2
