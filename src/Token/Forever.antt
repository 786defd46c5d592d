-- ===== src/Token/Forever.antt =====
-- internal/token/manager.go: after any calls, a revoked access token is still invalid; and what
-- RevokeByClient does.
use mathlib.Core.Path.{subst}
use oauth4os.Common.{
  ℕ, ◌||◌, String, ◌≡◌, refl, sym, ◌∙◌, inl, inr, true, false, Option, none, some, List, [], ◌∷◌,
  arith, ◌==◌, eq_refl, contains, Option-cases, Bool-cases,
}
use oauth4os.Common.Dict
use oauth4os.Common.Dict.{Dict, map_option, get-put, get-adjust, get-adjust_all, get-sweep}
use oauth4os.Token.State.{Token, Manager, Form, set_refresh_ttl, enable_jwt}
use oauth4os.Token.Clients.{register_client}
use oauth4os.Token.Grant.{family, create_token_for_client, create_token}
use oauth4os.Token.Refresh.{revoke, revoke_each, revoke_family}
use oauth4os.Token.Revoke.{
  is_live, revoke_counting, revoke_by_client, revoke_token, revoke_if_refresh, revoke_value,
  revoke_rfc7009,
}
use oauth4os.Token.Maintain.{is_valid, is_dead, bind_dpop, bind_to, cleanup}
use oauth4os.Token.Invariant.{Inv}
use oauth4os.Token.Rotation.{AllRevoked, revoke_family-AllRevoked, get-revoke_each}
use oauth4os.Token.Revocation.{
  Gone, GoneAt, Gone-map, Gone-unless, Gone-revoke_each, Gone-adjust, SparesCall, create-Gone,
  issue-Gone, touch-Gone, revoke_counting-eq,
}
use oauth4os.Token.Trace.{
  Call, sets_ttl, enables_jwt, registers, issues, creates, revokes, revokes_value, revokes_client,
  touches, binds, cleans, step,
}

revoke_if_Gone :
    (value : String) (tok : Token)
    → tok.revoked ≡ true
    → (revoke_if_refresh value tok).revoked ≡ true
revoke_if_Gone value tok h = ground arith

revoke_value-Gone :
    (id : String) (m : Manager) (value hint : String)
    → GoneAt id m
    → GoneAt id (revoke_value m value hint)
unfolding revoke_value
revoke_value-Gone id m value hint g =
    let one = Gone-adjust m.tokens value id revoke (λ tok h. refl) g in
    elim (Bool-cases (hint == "refresh_token" || hint == "")) [
      | inl e ↦
          rw (e, revoke_value)
            (rw get-adjust_all (Gone-map (revoke_if_refresh value) (revoke_if_Gone value) _ one))
      | inr e ↦ rw (e, revoke_value) one
    ]

revoke_rfc7009-Gone :
    (id : String) (m : Manager) (f : Form) → GoneAt id m → GoneAt id (revoke_rfc7009 m f).0
unfolding revoke_rfc7009
revoke_rfc7009-Gone id m f g = ground (arith, g, revoke_value-Gone id m f.token f.token_type_hint g)

step-Gone :
    (id : String) (m : Manager) (c : Call) → SparesCall id m c → GoneAt id m → GoneAt id (step m c)
unfolding step set_refresh_ttl enable_jwt register_client create_token_for_client create_token
    revoke_token revoke_by_client bind_dpop cleanup
step-Gone id m (sets_ttl ttl life) o g = g
step-Gone id m (enables_jwt issuer kp) o g = g
step-Gone id m (registers k secret scopes uris) o g = g
step-Gone id m (issues f d) o g = issue-Gone id m f d o g
step-Gone id m (creates d c scopes) o g = create-Gone id m d c scopes 0 o g
step-Gone id m (revokes k) o g = Gone-adjust m.tokens k id revoke (λ tok h. refl) g
step-Gone id m (revokes_value f) o g = revoke_rfc7009-Gone id m f g
step-Gone id m (revokes_client c) o g =
    subst Gone (sym (revoke_counting-eq (family m c) m.tokens 0 id))
      (Gone-revoke_each (family m c) m.tokens id g)
step-Gone id m (touches now k window) o g = touch-Gone id m now k window g
step-Gone id m (binds k thumbprint) o g =
    Gone-adjust m.tokens k id (bind_to thumbprint) (λ tok h. h) g
step-Gone id m (cleans now) o g = rw get-sweep (Gone-unless (is_dead now) _ g)

-- The states that calls lead to, where no new token is given the name `id`.
pub data Later (id : String) (m : Manager) : Manager → Type 0 where
  here : Later id m m
  then_call : {n : Manager} (c : Call) → Later id m n → SparesCall id n c → Later id m (step n c)

pub Later-Gone : {id : String} {m n : Manager} → Later id m n → GoneAt id m → GoneAt id n
Later-Gone here g = g
Later-Gone {id} (then_call {n = n} c l o) g = step-Gone id n c o (Later-Gone l g)

pub invalid_of_Gone :
    (m : Manager) (now : ℕ) (id : String) → GoneAt id m → is_valid m now id ≡ false
unfolding is_valid
invalid_of_Gone m now id g = elim (Option-cases (Dict.get m.tokens id)) [
  | inl e ↦ rw (e, is_valid)
  | inr (tok, e) ↦ let dead : tok.revoked ≡ true = subst Gone e g in rw (e, is_valid) (rw dead)
]

-- A token that RevokeToken was called on is invalid ever after, whatever calls follow (touching,
-- refreshing, clean-up, and all the others), as long as no new token is given its name.
pub revoked_forever :
    (m n : Manager) (now : ℕ) (id : String)
    → Later id (revoke_token m id).0 n
    → is_valid n now id ≡ false
unfolding revoke_token
revoked_forever m n now id l =
    invalid_of_Gone n now id
      (Later-Gone l (rw (get-adjust, eq_refl) (revoked_now (Dict.get m.tokens id))))
  where
    revoked_now : (o : Option Token) → Gone (map_option revoke o)
    revoked_now none = tt
    revoked_now (some tok) = refl

-- With no live token in the list nothing is counted.
revoke_counting_none :
    (ids : List String) (d : Dict Token) (n : ℕ)
    → ((j : String) → contains ids j ≡ true → is_live (Dict.get d j) ≡ false)
    → (revoke_counting ids d n).1 ≡ n
unfolding revoke_counting
revoke_counting_none [] d n h = refl
revoke_counting_none (id ∷ ids) d n h =
    let dead : is_live (Dict.get d id) ≡ false = h id (rw eq_refl) in
    rw (dead, revoke_counting) (revoke_counting_none ids d n (λ j k. h j (ground arith)))

revoked_dead :
    (ids : List String) (d : Dict Token) (j : String)
    → contains ids j ≡ true
    → is_live (Dict.get (revoke_each ids d) j) ≡ false
revoked_dead ids d j h = ground (arith, get-revoke_each ids d j)

-- RevokeByClient leaves the tokens that revokeFamily leaves, so that every token of the client is
-- revoked; and a second call finds none that is live.
pub revoke_by_client_lem :
    (m : Manager) (c : String)
    → Inv m
    → let after = (revoke_by_client m c).0 in
      ((k : String) → Dict.get after.tokens k ≡ Dict.get (revoke_family m c).tokens k)
      × AllRevoked after c
      × ((revoke_by_client after c).1 ≡ 0)
unfolding revoke_by_client revoke_family
revoke_by_client_lem m c v = (
  revoke_counting-eq (family m c) m.tokens 0,
  (λ id tok e.
      revoke_family-AllRevoked m c v id tok
        (sym (revoke_counting-eq (family m c) m.tokens 0 id) ∙ e)),
  revoke_counting_none (family m c) _ 0 (λ j h.
      rw (revoke_counting-eq (family m c) m.tokens 0 j) (revoked_dead (family m c) m.tokens j h)),
)
