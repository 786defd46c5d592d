-- ===== src/Keyring/Window.antt =====
-- internal/keyring/keyring.go: which keys are served after a history of rotations.
use oauth4os.Common.{ℕ, ◌≡◌, refl, ap, Option, none, some, List, [], ◌∷◌, ◌++◌}
use oauth4os.Keyring.Ring.{Key, Ring, Library, rotate, jwk_list, jwks}

module _ {P : Type 0} (lib : Library P) where
  -- The ring after rotations, the last one first, each with what making a key gave.
  abbrev pub after : Ring P → List (Option P × ℕ) → Ring P
  after r [] = r
  after r ((made, now) ∷ rest) = (rotate lib (after r rest) made now).0

  -- The keys that were made, the last one first.
  abbrev pub made_keys : List (Option P × ℕ) → List (Key P)
  made_keys [] = []
  made_keys ((none, now) ∷ rest) = made_keys rest
  made_keys ((some priv, now) ∷ rest) =
      record { id = lib.gen_kid priv; private = priv; created_at = now } ∷ made_keys rest

  abbrev pub first_key : List (Key P) → Option (Key P)
  first_key [] = none
  first_key (k ∷ ks) = some k

  abbrev pub second_key : List (Key P) → Option (Key P)
  second_key [] = none
  second_key (k ∷ ks) = first_key ks

  -- The ring of the two keys that were made last.
  abbrev pub ring_of : List (Key P) → Ring P
  ring_of ks = record { current = first_key ks; previous = second_key ks }

  after-ring_of :
      (history : List (Option P × ℕ)) → after (ring_of []) history ≡ ring_of (made_keys history)
  unfolding rotate
  after-ring_of [] = refl
  after-ring_of ((none, now) ∷ rest) = after-ring_of rest
  after-ring_of ((some priv, now) ∷ rest) = ap rotated (after-ring_of rest)
    where
      rotated : Ring P → Ring P
      rotated r = record {
        current = some (record { id = lib.gen_kid priv; private = priv; created_at = now });
        previous = r.current;
      }

  -- Whatever fails in between, the ring holds the last two keys that were made since it was empty, the
  -- last one to sign with, and serves the public parts of exactly these: a token that is signed before
  -- a rotation can be checked after it, and not after the next.
  pub jwks-last_two :
      (history : List (Option P × ℕ))
      → (after (ring_of []) history ≡ ring_of (made_keys history))
        × (jwks lib (after (ring_of []) history)
            ≡ jwk_list lib (first_key (made_keys history))
              ++ jwk_list lib (second_key (made_keys history)))
  unfolding jwks
  jwks-last_two history = (after-ring_of history, ap (jwks lib) (after-ring_of history))
