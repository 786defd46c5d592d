-- ===== src/Keyring/Examples.antt =====
-- internal/keyring/keyring.go: the theorem at three keys, one of which could not be made.
use oauth4os.Common.{ℕ, String, ◌≡◌, Option, none, some, List, [], ◌∷◌, ◌++◌}
use oauth4os.Keyring.Ring.{Library, jwk_list, jwks}
use oauth4os.Keyring.Window.{after, made_keys, first_key, second_key, ring_of, jwks-last_two}

abbrev texts : Library String
texts = record { modulus = λ p. p; exponent = λ p. "AQAB"; gen_kid = λ p. p }

abbrev history : List (Option String × ℕ)
history = (some "c", 4) ∷ (none, 3) ∷ (some "b", 2) ∷ (some "a", 1) ∷ []

jwks-last_two_example :
    (after texts (ring_of texts []) history ≡ ring_of texts (made_keys texts history))
    × (jwks texts (after texts (ring_of texts []) history)
        ≡ jwk_list texts (first_key texts (made_keys texts history))
          ++ jwk_list texts (second_key texts (made_keys texts history)))
jwks-last_two_example = jwks-last_two texts history
