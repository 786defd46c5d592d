-- ===== src/Device/Examples.antt =====
-- internal/device/handler.go: the theorems at one flow, from the request to the tokens.
use oauth4os.Common.{
  ℕ, String, ◌≡◌, ◌≢◌, refl, false, some, List, [], ◌∷◌, ◌++◌, arith, ltb, ne_of_test,
}
use oauth4os.Common.Dict
use oauth4os.Device.Handler.{
  tokens, poll_look, approve, request_code, new_handler, clean_up, poll_token, device_grant,
}
use oauth4os.Device.History.{
  Event, requested, finished, decided, cleaned, after, Sometime, MadeAt, AgreedTo, DeniedTo,
}
use oauth4os.Device.Outcomes.{poll-once, tokens-Agreed}
use oauth4os.Device.Progress.{poll-gets_tokens}

-- an issuer that numbers its tokens
abbrev numbered : ℕ → String → List String → ℕ × (String × String)
numbered n client_id scopes = (n, (client_id, "refresh"))

abbrev asked : List Event
asked = requested "tv" "read:logs" "D1" "ABCD-EF01" 0 ∷ []

abbrev agreed : List Event
agreed = decided "ABCD-EF01" "approve" ∷ asked

abbrev between : List Event
between = cleaned 7 ∷ requested "lamp" "" "D2" "0000-0000" 5 ∷ []

poll-once_example :
    (poll_token numbered (after (between ++ finished "D1" 0 ∷ agreed)) 3 device_grant "D1" 11).2
    ≢ tokens "tv" "refresh"
poll-once_example =
    poll-once numbered between agreed "D1" 0 3 device_grant "tv" "refresh" 11
      (tt, (ne_of_test "D2" "D1" refl, tt))

abbrev GrantedCode : Type 0
GrantedCode =
    (a : ℕ) × (device_grant ≡ device_grant)
    × (Dict.get (after agreed).codes "D1" ≡ some a)
    × (((after agreed).object a).device_code ≡ "D1")
    × Sometime (MadeAt a ((after agreed).object a)) agreed
    × Sometime (AgreedTo a) agreed
    × (¬ Sometime (DeniedTo a) agreed)
    × (ltb ((after agreed).object a).expires_at 9 ≡ false)
    × ((numbered 3 ((after agreed).object a).client_id ((after agreed).object a).scopes).1
        ≡ ("tv", "refresh"))

tokens-Agreed_example : GrantedCode
unfolding poll_token poll_look approve request_code new_handler Dict.get Dict.put Dict.empty
    clean_up
tokens-Agreed_example = tokens-Agreed numbered agreed 3 device_grant "D1" "tv" "refresh" 9 refl

poll-gets_tokens_example :
    (poll_token numbered (after (between ++ agreed)) 3 device_grant "D1" 9).2
    ≡ tokens "tv" "refresh"
unfolding poll_token poll_look approve request_code new_handler Dict.get Dict.put Dict.empty
    clean_up
poll-gets_tokens_example =
    poll-gets_tokens numbered between asked 3 "D1" "ABCD-EF01" "approve" 0 9 refl refl refl
      (ne_of_test "approve" "deny" refl) (omega arith, (ne_of_test "D2" "D1" refl, tt))
      (omega arith)
