-- ===== src/Token/Revocation.antt =====
-- internal/token/manager.go: a revoked access token stays invalid, and the two ways to revoke a
-- client's tokens agree.
use mathlib.Core.Path.{subst}
use oauth4os.Common.{
  ℕ, ◌+◌, String, ◌≡◌, refl, ◌∙◌, inl, inr, Bool, true, false, Option, none, some, List, [], ◌∷◌,
  arith, ◌==◌, eq_iff, eq_sound, Option-cases, Bool-cases, if◌then◌else◌,
}
use oauth4os.Common.Dict
use oauth4os.Common.Dict.{
  Dict, map_option, unless, get-put, get-remove, get-adjust, get-adjust_all, get-sweep,
}
use oauth4os.Token.State.{Token, Manager, Draw, Form}
use oauth4os.Token.Grant.{family, access_id, minted, create_token_with_family}
use oauth4os.Token.Refresh.{revoke, revoke_each, revoke_family, rotate, issue_token}
use oauth4os.Token.Revoke.{is_live, revoke_counting}
use oauth4os.Token.Maintain.{touch_token, window_or_hour, needs_touch}
use oauth4os.Token.Issuing.{issue_token_rule}
use oauth4os.Token.Rotation.{get-revoke_each}
use oauth4os.Token.Trace.{
  Call, sets_ttl, enables_jwt, registers, issues, creates, revokes, revokes_value, revokes_client,
  touches, binds, cleans,
}

-- No token, or a revoked one.
abbrev pub Gone : Option Token → Type 0
Gone none = Unit
Gone (some tok) = tok.revoked ≡ true

abbrev pub GoneAt : String → Manager → Type 0
GoneAt id m = Gone (Dict.get m.tokens id)

pub Gone-map :
    (f : Token → Token)
    → ((tok : Token) → tok.revoked ≡ true → (f tok).revoked ≡ true)
    → (o : Option Token) → Gone o
    → Gone (map_option f o)
Gone-map f h none g = tt
Gone-map f h (some tok) g = h tok g

Gone-if : (b : Bool) (o p : Option Token) → Gone o → Gone p → Gone (if b then o else p)
Gone-if true o p g h = g
Gone-if false o p g h = h

pub Gone-unless : (p : Token → Bool) (o : Option Token) → Gone o → Gone (unless p o)
Gone-unless p none g = tt
Gone-unless p (some tok) g = ground arith

pub Gone-revoke_each :
    (ids : List String) (d : Dict Token) (j : String)
    → Gone (Dict.get d j)
    → Gone (Dict.get (revoke_each ids d) j)
Gone-revoke_each ids d j g =
    rw get-revoke_each (Gone-if _ _ _ (Gone-map revoke (λ tok h. refl) _ g) g)

pub Gone-adjust :
    (d : Dict Token) (k j : String) (f : Token → Token)
    → ((tok : Token) → tok.revoked ≡ true → (f tok).revoked ≡ true)
    → Gone (Dict.get d j)
    → Gone (Dict.get (Dict.adjust d k f) j)
Gone-adjust d k j f h g = rw get-adjust (Gone-if _ _ _ (Gone-map f h _ g) g)

-- The draws of a call give no new token this name.
abbrev pub Spares : String → Manager → Draw → Type 0
Spares id m d =
    (c : String) (scopes : List String) (born : ℕ) → ((minted m d c scopes born).id == id) ≡ false

abbrev pub SparesCall : String → Manager → Call → Type 0
SparesCall id m (issues f d) = Spares id m d
SparesCall id m (creates d c scopes) = Spares id m d
SparesCall id m (sets_ttl _ _) = Unit
SparesCall id m (enables_jwt _ _) = Unit
SparesCall id m (registers _ _ _ _) = Unit
SparesCall id m (revokes _) = Unit
SparesCall id m (revokes_value _) = Unit
SparesCall id m (revokes_client _) = Unit
SparesCall id m (touches _ _ _) = Unit
SparesCall id m (binds _ _) = Unit
SparesCall id m (cleans _) = Unit

pub create-Gone :
    (id : String) (m : Manager) (d : Draw) (c : String) (scopes : List String) (born : ℕ)
    → Spares id m d
    → GoneAt id m
    → GoneAt id (create_token_with_family m d c scopes born).0
unfolding create_token_with_family
create-Gone id m d c scopes born other g =
    let tok = minted m d c scopes born in rw (get-put m.tokens tok.id id tok, other c scopes born) g

pub issue-Gone :
    (id : String) (m : Manager) (f : Form) (d : Draw)
    → Spares id m d
    → GoneAt id m
    → GoneAt id (issue_token m f d).0
unfolding revoke_family rotate access_id
issue-Gone id m f d other g =
    issue_token_rule f d (λ n. GoneAt id n × Spares id n d) (GoneAt id) (λ n p. p.0)
      (λ n c s b p. create-Gone id n d c s b p.1 p.0)
      (λ n c p. Gone-revoke_each (family n c) n.tokens id p.0) (λ n p. p.0)
      (λ n c p. Gone-revoke_each (family n c) n.tokens id p.0)
      (λ n c old_id old unused p.
        (Gone-adjust n.tokens old_id id revoke (λ tok h. refl) p.0, λ c' s b. p.1 c' s b))
      m (g, other)

pub touch-Gone :
    (id : String) (m : Manager) (now : ℕ) (k : String) (window : ℕ)
    → GoneAt id m
    → GoneAt id (touch_token m now k window).0
unfolding touch_token
touch-Gone id m now k window g = elim (Option-cases (Dict.get m.tokens k)) [
  | inl e ↦ rw (e, touch_token) g
  | inr (tok, e) ↦ elim (Bool-cases (needs_touch now (window_or_hour window) tok)) [
    | inr quiet ↦ rw (e, touch_token) (rw quiet g)
    | inl due ↦
        rw (e, touch_token)
          (rw (due, get-put)
            (elim (Bool-cases (k == id)) [
              | inr other ↦ rw other g
              | inl same ↦
                  let mine : tok.revoked ≡ true = subst Gone e (rw (eq_sound k id same) g) in
                  absurd (unfold needs_touch in ground arith)
            ]))
  ]
]

adjust_dead :
    (d : Dict Token) (id j : String)
    → is_live (Dict.get d id) ≡ false
    → Dict.get (Dict.adjust d id revoke) j ≡ Dict.get d j
adjust_dead d id j dead = ground (arith, get-adjust d id j revoke, eq_iff id j)

pub revoke_counting-eq :
    (ids : List String) (d : Dict Token) (n : ℕ) (j : String)
    → Dict.get (revoke_counting ids d n).0 j ≡ Dict.get (revoke_each ids d) j
unfolding revoke_counting revoke_each
revoke_counting-eq [] d n j = refl
revoke_counting-eq (id ∷ ids) d n j = elim (Bool-cases (is_live (Dict.get d id))) [
  | inl live ↦
      rw (live, revoke_counting) (revoke_counting-eq ids (Dict.adjust d id revoke) (n + 1) j)
  | inr dead ↦
      rw (dead, revoke_counting)
        (revoke_counting-eq ids d n j
          ∙ ground (
            arith,
            get-revoke_each ids d j,
            get-revoke_each ids (Dict.adjust d id revoke) j,
            adjust_dead d id j dead,
          ))
]
