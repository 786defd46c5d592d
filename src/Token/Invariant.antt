-- ===== src/Token/Invariant.antt =====
-- internal/token/manager.go: what holds of the manager's maps between two calls, for the parts that
-- the operations are made of.
use mathlib.Core.Path.{subst}
use oauth4os.Common.{
  String, ◌≡◌, refl, ◌∙◌, Bool, true, false, Option, none, some, List, [], ◌∷◌, contains,
  eq_of_some-eq, if◌then◌else◌,
}
use oauth4os.Common.Dict
use oauth4os.Common.Dict.{Dict, get-put, get-remove, get-adjust, get-adjust_all, map_option}
use oauth4os.Token.State.{Token, Manager}
use oauth4os.Token.Grant.{family}
use oauth4os.Token.Refresh.{revoke, revoke_each}

-- A token keeps its names, its client and its revocation.
abbrev pub SameToken : Token → Token → Type 0
SameToken a b =
    (b.id ≡ a.id)
    × (b.client_id ≡ a.client_id)
    × (b.refresh_token ≡ a.refresh_token)
    × (a.revoked ≡ true → b.revoked ≡ true)

-- Two lookups find the same token, or none.
abbrev pub Agree : Option Token → Option Token → Type 0
Agree none none = Unit
Agree none (some b) = ⊥
Agree (some a) none = ⊥
Agree (some a) (some b) = SameToken a b

abbrev pub SameTokens : Dict Token → Dict Token → Type 0
SameTokens d e = (id : String) → Agree (Dict.get d id) (Dict.get e id)

pub record Inv (m : Manager) : Type 0 where
  -- a token stands under its own name
  pub named : (id : String) (tok : Token) → Dict.get m.tokens id ≡ some tok → tok.id ≡ id
  -- and in the family of its client
  pub in_family :
      (id : String) (tok : Token)
      → Dict.get m.tokens id ≡ some tok
      → contains (family m tok.client_id) id ≡ true
  -- a refresh token leads to the access token that it came with
  pub leads :
      (r id : String)
      → Dict.get m.refresh r ≡ some id
      → (tok : Token) × (Dict.get m.tokens id ≡ some tok) × (tok.refresh_token ≡ r)
  -- and is not one that was used
  pub unused : (r id : String) → Dict.get m.refresh r ≡ some id → Dict.get m.used_refresh r ≡ none

Agree-refl : (o : Option Token) → Agree o o
Agree-refl none = tt
Agree-refl (some a) = (refl, refl, refl, λ h. h)

Agree-trans : (o p q : Option Token) → Agree o p → Agree p q → Agree o q
Agree-trans none none none h k = tt
Agree-trans (some a) (some b) (some c) h k = (k.0 ∙ h.0, k.1 ∙ h.1, k.2 ∙ h.2, λ e. k.3 (h.3 e))
Agree-trans none none (some c) h k = k
Agree-trans none (some b) q h k = absurd h
Agree-trans (some a) none q h k = absurd h
Agree-trans (some a) (some b) none h k = k

pub SameTokens-refl : (d : Dict Token) → SameTokens d d
SameTokens-refl d id = Agree-refl (Dict.get d id)

pub SameTokens-trans : (d e f : Dict Token) → SameTokens d e → SameTokens e f → SameTokens d f
SameTokens-trans d e f h k id = Agree-trans _ (Dict.get e id) _ (h id) (k id)

Agree-map :
    (f : Token → Token)
    → ((tok : Token) → SameToken tok (f tok))
    → (o : Option Token) → Agree o (map_option f o)
Agree-map f h none = tt
Agree-map f h (some a) = h a

Agree-if : (b : Bool) (o p : Option Token) → Agree o p → Agree o (if b then p else o)
Agree-if true o p h = h
Agree-if false o p h = Agree-refl o

pub SameTokens-adjust :
    (d : Dict Token) (k : String) (f : Token → Token)
    → ((tok : Token) → SameToken tok (f tok))
    → SameTokens d (Dict.adjust d k f)
SameTokens-adjust d k f h id = rw get-adjust (Agree-if _ _ _ (Agree-map f h (Dict.get d id)))

pub SameTokens-adjust_all :
    (d : Dict Token) (f : Token → Token)
    → ((tok : Token) → SameToken tok (f tok))
    → SameTokens d (Dict.adjust_all d f)
SameTokens-adjust_all d f h id = rw get-adjust_all (Agree-map f h (Dict.get d id))

pub SameToken-revoke : (tok : Token) → SameToken tok (revoke tok)
SameToken-revoke tok = (refl, refl, refl, λ h. refl)

pub SameTokens-revoke_each : (ids : List String) (d : Dict Token) → SameTokens d (revoke_each ids d)
unfolding revoke_each
SameTokens-revoke_each [] d = SameTokens-refl d
SameTokens-revoke_each (id ∷ ids) d =
    SameTokens-trans d (Dict.adjust d id revoke) _ (SameTokens-adjust d id revoke SameToken-revoke)
      (SameTokens-revoke_each ids (Dict.adjust d id revoke))

-- The token that another map has under the name.
Agree-back :
    (o p : Option Token) (b : Token)
    → Agree o p
    → p ≡ some b
    → (a : Token) × (o ≡ some a) × SameToken a b
Agree-back none none b h e = cc
Agree-back (some a) (some c) b h e = (a, refl, subst (SameToken a) (eq_of_some-eq _ _ e) h)
Agree-back none (some c) b h e = absurd h
Agree-back (some a) none b h e = absurd h

Agree-on :
    (o p : Option Token) (a : Token)
    → Agree o p
    → o ≡ some a
    → (b : Token) × (p ≡ some b) × SameToken a b
Agree-on none none a h e = cc
Agree-on (some c) (some b) a h e = (b, refl, subst (λ x. SameToken x b) (eq_of_some-eq _ _ e) h)
Agree-on none (some c) b h e = absurd h
Agree-on (some a) none b h e = absurd h

pub token_before :
    (d e : Dict Token) (id : String) (b : Token)
    → SameTokens d e
    → Dict.get e id ≡ some b
    → (a : Token) × (Dict.get d id ≡ some a) × SameToken a b
token_before d e id b h = Agree-back _ _ b (h id)

pub token_after :
    (d e : Dict Token) (id : String) (a : Token)
    → SameTokens d e
    → Dict.get d id ≡ some a
    → (b : Token) × (Dict.get e id ≡ some b) × SameToken a b
token_after d e id a h = Agree-on _ _ a (h id)

-- The tokens stay, their families too, and no refresh token is added.
pub record Shrinks (m n : Manager) : Type 0 where
  pub same : SameTokens m.tokens n.tokens
  pub families : n.families ≡ m.families
  pub fewer : (r id : String) → Dict.get n.refresh r ≡ some id → Dict.get m.refresh r ≡ some id
  pub used :
      (r id : String)
      → Dict.get n.refresh r ≡ some id
      → Dict.get n.used_refresh r ≡ Dict.get m.used_refresh r

module _ (m n : Manager) (s : Shrinks m n) (v : Inv m) where
  Shrinks-named : (id : String) (tok : Token) → Dict.get n.tokens id ≡ some tok → tok.id ≡ id
  Shrinks-named id tok e =
      let (a, found, kept) = token_before m.tokens n.tokens id tok s.same e in
      kept.0 ∙ v.named id a found

  Shrinks-in_family :
      (id : String) (tok : Token)
      → Dict.get n.tokens id ≡ some tok
      → contains (family n tok.client_id) id ≡ true
  Shrinks-in_family id tok e =
      let (a, found, kept) = token_before m.tokens n.tokens id tok s.same e in
      rw (s.families, kept.1) (v.in_family id a found)

  Shrinks-leads :
      (r id : String)
      → Dict.get n.refresh r ≡ some id
      → (tok : Token) × (Dict.get n.tokens id ≡ some tok) × (tok.refresh_token ≡ r)
  Shrinks-leads r id e =
      let (a, found, names) = v.leads r id (s.fewer r id e) in
      let (b, after, kept) = token_after m.tokens n.tokens id a s.same found in
      (b, after, kept.2 ∙ names)

  pub Shrinks-Inv : Inv n
  Shrinks-Inv = record {
    named = Shrinks-named;
    in_family = Shrinks-in_family;
    leads = Shrinks-leads;
    unused = λ r id e. s.used r id e ∙ v.unused r id (s.fewer r id e);
  }
