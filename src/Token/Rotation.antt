-- ===== src/Token/Rotation.antt =====
-- internal/token/manager.go: refresh tokens are good for one use.
use Prim.Native.String.{◌++◌}
use oauth4os.Common.{
  ℕ, ◌+◌, String, ◌≡◌, ◌≢◌, refl, inl, inr, true, false, Option, none, some, List, [], ◌∷◌, arith,
  eq_iff, contains, contains-subset, Option-cases, Bool-cases, if◌then◌else◌,
}
use oauth4os.Common.Dict
use oauth4os.Common.Dict.{Dict, map_option, get-put, get-remove, get-adjust}
use oauth4os.Common.Text.{fields}
use oauth4os.Token.State.{Token, Manager, Draw, Reply, granted, TokenBody}
use oauth4os.Token.Grant.{family, minted, store_token, create_token_with_family}
use oauth4os.Token.Refresh.{
  revoke, revoke_each, revoke_family, Redeemed, rejected, rotated, past, rotate, redeem_token,
  redeem, narrow, reissue,
}
use oauth4os.Token.Invariant.{Inv}

-- A lookup after a family was revoked.
pub get-revoke_each :
    (ids : List String) (d : Dict Token) (j : String)
    → Dict.get (revoke_each ids d) j
      ≡ (if contains ids j then map_option revoke (Dict.get d j) else Dict.get d j)
unfolding revoke_each
get-revoke_each [] d j = refl
get-revoke_each (id ∷ ids) d j =
    ground (arith, get-revoke_each ids (Dict.adjust d id revoke) j, get-adjust d id j revoke)

abbrev pub AllRevoked : Manager → String → Type 0
AllRevoked m client_id =
    (id : String) (tok : Token)
    → Dict.get m.tokens id ≡ some tok
    → tok.client_id ≡ client_id
    → tok.revoked ≡ true

revoked_of_map :
    (o : Option Token) (tok : Token) → map_option revoke o ≡ some tok → tok.revoked ≡ true
revoked_of_map o tok e = ground arith

-- Revoking a family revokes every token of the client, since each stands in that family.
pub revoke_family-AllRevoked :
    (m : Manager) (client_id : String) → Inv m → AllRevoked (revoke_family m client_id) client_id
unfolding revoke_family
revoke_family-AllRevoked m client_id v id tok e mine =
    elim (Bool-cases (contains (family m client_id) id)) [
      | inl held ↦
          revoked_of_map (Dict.get m.tokens id) tok
            (ground (arith, get-revoke_each (family m client_id) m.tokens id))
      | inr out ↦
          let there : Dict.get m.tokens id ≡ some tok =
            ground (arith, get-revoke_each (family m client_id) m.tokens id) in
          let kept : contains (family m client_id) id ≡ true =
            rw (← mine) (v.in_family id tok there) in
          cc
    ]

-- What it takes for a refresh token to be redeemed.
pub record Redeems (m : Manager) (now : ℕ) (client_id r old_id : String) (old : Token)
    : Type 0 where
  pub fresh : Dict.get m.used_refresh r ≡ none
  pub known : Dict.get m.refresh r ≡ some old_id
  pub stored : Dict.get m.tokens old_id ≡ some old
  pub own : old.client_id ≡ client_id
  pub in_time : past old.refresh_expires_at now old.refresh_expires_at ≡ false
  pub in_life : past old.family_created_at now (old.family_created_at + m.refresh_max_life) ≡ false

redeem_token-rotated :
    (m : Manager) (now : ℕ) (c r old_id : String) (old : Token) (n : Manager) (scopes : List String)
    (born : ℕ)
    → redeem_token m now c r old_id old ≡ rotated n scopes born
    → (old.client_id ≡ c)
      × (past old.refresh_expires_at now old.refresh_expires_at ≡ false)
      × (past old.family_created_at now (old.family_created_at + m.refresh_max_life) ≡ false)
      × (n ≡ rotate m c r old_id old)
      × (scopes ≡ old.scopes)
      × (born ≡ old.family_created_at)
unfolding redeem_token
redeem_token-rotated m now c r old_id old n scopes born e = ground (arith, eq_iff old.client_id c)

pub redeem-rotated :
    (m : Manager) (now : ℕ) (c r : String) (n : Manager) (scopes : List String) (born : ℕ)
    → redeem m now c r ≡ rotated n scopes born
    → (old_id : String) × (old : Token) × Redeems m now c r old_id old
      × (n ≡ rotate m c r old_id old)
      × (scopes ≡ old.scopes)
      × (born ≡ old.family_created_at)
unfolding redeem
redeem-rotated m now c r n scopes born e = elim (Option-cases (Dict.get m.used_refresh r)) [
  | inr (stolen, u) ↦ absurd (ground arith)
  | inl u ↦ elim (Option-cases (Dict.get m.refresh r)) [
    | inl k ↦ absurd (ground arith)
    | inr (old_id, k) ↦ elim (Option-cases (Dict.get m.tokens old_id)) [
      | inl t ↦ absurd (ground arith)
      | inr (old, t) ↦
          let (own, in_time, in_life, state, kept, birth) =
            redeem_token-rotated m now c r old_id old n scopes born (ground arith) in
          (
            old_id,
            old,
            record {
              fresh = u;
              known = k;
              stored = t;
              own = own;
              in_time = in_time;
              in_life = in_life;
            },
            state,
            kept,
            birth,
          )
    ]
  ]
]

pub narrow-subset :
    (scope : String) (scopes kept : List String) (s : String)
    → narrow scope scopes ≡ some kept
    → contains kept s ≡ true
    → contains scopes s ≡ true
unfolding narrow
narrow-subset scope scopes kept s e h = ground (arith, contains-subset (fields scope) scopes s)

-- A reply that grants comes from a rotation.
pub reissue-granted :
    (x : Redeemed) (c : String) (d : Draw) (scope : String) (n : Manager) (b : TokenBody)
    → reissue x c d scope ≡ (n, granted b)
    → ((m : Manager) (r : Reply) → x ≡ rejected m r → r ≢ granted b)
    → (m : Manager) × (scopes : List String) × (born : ℕ) × (kept : List String) × (x
        ≡ rotated m scopes born)
      × (narrow scope scopes ≡ some kept)
      × (n ≡ store_token m (minted m d c kept born))
      × (b.access_token ≡ (minted m d c kept born).id)
      × (b.refresh_token ≡ "rtk_" ++ d.refresh_id)
unfolding reissue create_token_with_family
reissue-granted (rejected m r) c d scope n b e h = absurd (h m r refl (ground arith))
reissue-granted (rotated m scopes born) c d scope n b e h =
    elim (Option-cases (narrow scope scopes)) [
      | inl k ↦ absurd (ground arith)
      | inr (kept, k) ↦ (m, scopes, born, kept, refl, k, ground arith, ground arith, ground arith)
    ]

redeem_token-refuses :
    (m : Manager) (now : ℕ) (c r old_id : String) (old : Token) (n : Manager) (x : Reply)
    (b : TokenBody)
    → redeem_token m now c r old_id old ≡ rejected n x
    → x ≢ granted b
unfolding redeem_token
redeem_token-refuses m now c r old_id old n x b e g = ground arith

pub redeem-refuses :
    (m : Manager) (now : ℕ) (c r : String) (b : TokenBody) (n : Manager) (x : Reply)
    → redeem m now c r ≡ rejected n x
    → x ≢ granted b
unfolding redeem
redeem-refuses m now c r b n x e g = elim (Option-cases (Dict.get m.used_refresh r)) [
  | inr (stolen, u) ↦ ground arith
  | inl u ↦ elim (Option-cases (Dict.get m.refresh r)) [
    | inl k ↦ ground arith
    | inr (old_id, k) ↦ elim (Option-cases (Dict.get m.tokens old_id)) [
      | inl t ↦ ground arith
      | inr (old, t) ↦ redeem_token-refuses m now c r old_id old n x b (ground arith) g
    ]
  ]
]
