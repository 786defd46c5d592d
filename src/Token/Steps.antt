-- ===== src/Token/Steps.antt =====
-- internal/token/manager.go: every operation keeps the invariant of the manager's maps.
use oauth4os.Common.{
  String, ◌≡◌, refl, inl, inr, true, none, some, [], ◌∷◌, arith, ◌==◌, eq_iff, contains,
  contains-append, Bool-cases,
}
use oauth4os.Common.Dict
use oauth4os.Common.Dict.{Dict, get-put, get-remove, get-adjust, get-sweep, get-empty}
use oauth4os.Token.State.{Token, Manager}
use oauth4os.Token.Grant.{family, store_token}
use oauth4os.Token.Refresh.{revoke, revoke_family, rotate, burn}
use oauth4os.Token.Invariant.{
  Inv, SameTokens, Shrinks-Inv, SameTokens-refl, SameTokens-adjust, SameToken-revoke,
  SameTokens-revoke_each,
}

-- The names of a new token were not used before.
pub record IsFresh (m : Manager) (tok : Token) : Type 0 where
  pub unborn : Dict.get m.tokens tok.id ≡ none
  pub unused : Dict.get m.used_refresh tok.refresh_token ≡ none

module _ (m : Manager) (tok : Token) (f : IsFresh m tok) (v : Inv m) where
  store_token-named :
      (id : String) (t : Token) → Dict.get (store_token m tok).tokens id ≡ some t → t.id ≡ id
  unfolding store_token
  store_token-named id t e =
      ground (arith, get-put m.tokens tok.id id tok, eq_iff tok.id id, v.named id t)

  store_token-in_family :
      (id : String) (t : Token)
      → Dict.get (store_token m tok).tokens id ≡ some t
      → contains (family (store_token m tok) t.client_id) id ≡ true
  unfolding store_token
  store_token-in_family id t e = ground (
    arith,
    get-put m.tokens tok.id id tok,
    get-put m.families tok.client_id t.client_id
        (mathlib.Core.List.◌++◌ (family m tok.client_id) (tok.id ∷ [])),
    contains-append (family m tok.client_id) (tok.id ∷ []) id,
    eq_iff tok.id id,
    eq_iff tok.client_id t.client_id,
    v.in_family id t,
  )

  store_token-unused :
      (r id : String)
      → Dict.get (store_token m tok).refresh r ≡ some id
      → Dict.get (store_token m tok).used_refresh r ≡ none
  unfolding store_token
  store_token-unused r id e = ground (
    arith,
    get-put m.refresh tok.refresh_token r tok.id,
    eq_iff tok.refresh_token r,
    f.unused,
    v.unused r id,
  )

  store_token-leads :
      (r id : String)
      → Dict.get (store_token m tok).refresh r ≡ some id
      → (t : Token) × (Dict.get (store_token m tok).tokens id ≡ some t) × (t.refresh_token ≡ r)
  unfolding store_token
  store_token-leads r id e = elim (Bool-cases (tok.refresh_token == r)) [
    | inl new ↦ (
      tok,
      ground (
        arith,
        get-put m.refresh tok.refresh_token r tok.id,
        get-put m.tokens tok.id id tok,
        eq_iff tok.id id,
      ),
      (eq_iff tok.refresh_token r).0 new,
    )
    | inr old ↦
        let old_entry : Dict.get m.refresh r ≡ some id =
          ground (arith, get-put m.refresh tok.refresh_token r tok.id) in
        let (t, there, names) = v.leads r id old_entry in
        (t, ground (arith, get-put m.tokens tok.id id tok, eq_iff tok.id id, f.unborn), names)
  ]

  pub store_token-Inv : Inv (store_token m tok)
  store_token-Inv = record {
    named = store_token-named;
    in_family = store_token-in_family;
    leads = store_token-leads;
    unused = store_token-unused;
  }

-- A write through a token's pointer that keeps its names.
pub Inv-write :
    (m : Manager) (tokens : Dict Token)
    → SameTokens m.tokens tokens
    → Inv m
    → Inv (record m { tokens = tokens })
Inv-write m tokens h v =
    Shrinks-Inv m _
      (record { same = h; families = refl; fewer = λ r id e. e; used = λ r id e. refl }) v

pub revoke_family-Inv : (m : Manager) (client_id : String) → Inv m → Inv (revoke_family m client_id)
unfolding revoke_family
revoke_family-Inv m client_id v =
    Inv-write m _ (SameTokens-revoke_each (family m client_id) m.tokens) v

pub burn-Inv : (m : Manager) (refresh_token : String) → Inv m → Inv (burn m refresh_token)
burn-Inv m refresh_token v =
    Shrinks-Inv m _
      (record {
        same = SameTokens-refl m.tokens;
        families = refl;
        fewer = λ r id e. ground (arith, get-remove m.refresh refresh_token r);
        used = λ r id e. refl;
      })
      v

pub rotate-Inv :
    (m : Manager) (client_id refresh_token old_id : String) (old : Token)
    → Inv m
    → Inv (rotate m client_id refresh_token old_id old)
unfolding rotate
rotate-Inv m client_id refresh_token old_id old v =
    Shrinks-Inv m _
      (record {
        same = SameTokens-adjust m.tokens old_id revoke SameToken-revoke;
        families = refl;
        fewer = λ r id e. ground (arith, get-remove m.refresh refresh_token r);
        used = λ r id e. ground (
          arith,
          get-remove m.refresh refresh_token r,
          get-put m.used_refresh refresh_token r client_id,
        );
      })
      v
