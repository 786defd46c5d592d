-- ===== src/Token/Issuing.antt =====
-- internal/token/manager.go: IssueToken keeps the invariant of the manager's maps, by a rule for
-- whatever holds of a state that IssueToken works on (P) and of the one that it leaves (Q).
use Prim.Native.String.{◌++◌}
use oauth4os.Common.{
  ℕ, String, ◌≡◌, false, List, arith, ◌==◌, none, eq_iff, Option-cases, Bool-cases, inl, inr,
}
use oauth4os.Common.Dict
use oauth4os.Common.Dict.{Dict, get-empty, get-put, get-adjust-none}
use oauth4os.Token.State.{Token, Manager, Draw, Form}
use oauth4os.Token.Clients.{authenticate_client, validate_scopes, credentials}
use oauth4os.Token.Grant.{
  access_id, minted, create_token_with_family, create_token, handle_client_credentials,
  requested_scopes,
}
use oauth4os.Token.Refresh.{
  Redeemed, rejected, rotated, rotate, burn, redeem_token, redeem, narrow, reissue,
  handle_refresh_token, issue_token, revoke, revoke_family,
}
use oauth4os.Token.Invariant.{Inv}
use oauth4os.Token.Steps.{IsFresh, store_token-Inv, revoke_family-Inv, burn-Inv, rotate-Inv}

-- Whatever token a draw is used for, its names are new: the random parts do not repeat.
abbrev pub FreshDraw : Manager → Draw → Type 0
FreshDraw m d =
    (client_id : String) (scopes : List String) (born : ℕ)
    → IsFresh m (minted m d client_id scopes born)

pub create-Inv :
    (m : Manager) (d : Draw) (client_id : String) (scopes : List String) (born : ℕ)
    → FreshDraw m d
    → Inv m
    → Inv (create_token_with_family m d client_id scopes born).0
unfolding create_token_with_family
create-Inv m d client_id scopes born fresh v =
    store_token-Inv m (minted m d client_id scopes born) (fresh client_id scopes born) v

module _ (f : Form) (d : Draw) (P Q : Manager → Type 0) (keep : (m : Manager) → P m → Q m)
    (mint : (m : Manager) (c : String) (scopes : List String) (born : ℕ)
      → P m
      → Q (create_token_with_family m d c scopes born).0)
    (drop : (m : Manager) (c : String) → P m → Q (revoke_family m c))
    (late : (m : Manager) → P m → Q (burn m f.refresh_token))
    (over : (m : Manager) (c : String) → P m → Q (burn (revoke_family m c) f.refresh_token))
    (turn : (m : Manager) (c old_id : String) (old : Token)
      → Dict.get m.used_refresh f.refresh_token ≡ none
      → P m
      → P (rotate m c f.refresh_token old_id old)) where
  client_credentials_rule : (m : Manager) → P m → Q (handle_client_credentials m f d).0
  unfolding handle_client_credentials create_token
  client_credentials_rule m p =
      let id = (credentials f).0 in
      let scopes = requested_scopes m id f.scope in
      elim (Option-cases (authenticate_client m id (credentials f).1)) [
        | inr (e, bad) ↦ rw (bad, handle_client_credentials) (keep m p)
        | inl good ↦ elim (Option-cases (validate_scopes m id scopes)) [
          | inr (e, bad) ↦ rw (good, bad, handle_client_credentials) (keep m p)
          | inl fine ↦ rw (good, fine, handle_client_credentials) (mint m id scopes 0 p)
        ]
      ]

  -- What holds of the end of the locked part of the refresh handler.
  abbrev Ends : Redeemed → Type 0
  Ends (rejected m r) = Q m
  Ends (rotated m scopes born) = P m

  redeem_token_rule :
      (m : Manager) (c old_id : String) (old : Token)
      → Dict.get m.used_refresh f.refresh_token ≡ none
      → P m
      → Ends (redeem_token m d.now c f.refresh_token old_id old)
  unfolding redeem_token
  redeem_token_rule m c old_id old unused p =
      ground (arith, keep m p, late m p, over m c p, turn m c old_id old unused p)

  redeem_rule : (m : Manager) (c : String) → P m → Ends (redeem m d.now c f.refresh_token)
  unfolding redeem
  redeem_rule m c p = elim (Option-cases (Dict.get m.used_refresh f.refresh_token)) [
    | inr (stolen, e) ↦ rw (e, redeem) (drop m stolen p)
    | inl e ↦ elim (Option-cases (Dict.get m.refresh f.refresh_token)) [
      | inl e' ↦ rw (e, e', redeem) (keep m p)
      | inr (old_id, e') ↦ elim (Option-cases (Dict.get m.tokens old_id)) [
        | inl e'' ↦ rw (e, e', e'', redeem) (keep m p)
        | inr (old, e'') ↦ rw (e, e', e'', redeem) (redeem_token_rule m c old_id old e p)
      ]
    ]
  ]

  reissue_rule : (x : Redeemed) (c : String) → Ends x → Q (reissue x c d f.scope).0
  unfolding reissue
  reissue_rule (rejected m r) c q = q
  reissue_rule (rotated m scopes born) c p = elim (Option-cases (narrow f.scope scopes)) [
    | inl e ↦ rw (e, reissue) (keep m p)
    | inr (kept, e) ↦ rw (e, reissue) (mint m c kept born p)
  ]

  pub handle_refresh_token_rule : (m : Manager) → P m → Q (handle_refresh_token m f d).0
  unfolding handle_refresh_token
  handle_refresh_token_rule m p =
      let (id, secret) = credentials f in
      elim (Option-cases (authenticate_client m id secret)) [
        | inr (e, bad) ↦ rw (bad, handle_refresh_token) (keep m p)
        | inl good ↦
            rw (good, handle_refresh_token)
              (reissue_rule (redeem m d.now id f.refresh_token) id (redeem_rule m id p))
      ]

  pub issue_token_rule : (m : Manager) → P m → Q (issue_token m f d).0
  unfolding issue_token
  issue_token_rule m p = elim (Bool-cases (f.grant_type == "client_credentials")) [
    | inl e ↦ rw (e, issue_token) (client_credentials_rule m p)
    | inr e ↦ elim (Bool-cases (f.grant_type == "refresh_token")) [
      | inl e' ↦ rw (e, e', issue_token) (handle_refresh_token_rule m p)
      | inr e' ↦ rw (e, e', issue_token) (keep m p)
    ]
  ]

FreshDraw-rotate :
    (m : Manager) (d : Draw) (client_id r old_id : String) (old : Token)
    → (("rtk_" ++ d.refresh_id) == r) ≡ false
    → FreshDraw m d
    → FreshDraw (rotate m client_id r old_id old) d
unfolding rotate access_id
FreshDraw-rotate m d client_id r old_id old other fresh c s b = record {
  unborn = get-adjust-none m.tokens old_id (minted m d c s b).id revoke (fresh c s b).unborn;
  unused = ground (
    arith,
    get-put m.used_refresh r ("rtk_" ++ d.refresh_id) client_id,
    (fresh c s b).unused,
    eq_iff r ("rtk_" ++ d.refresh_id),
    eq_iff ("rtk_" ++ d.refresh_id) r,
  );
}

abbrev Ready : Draw → Manager → Type 0
Ready d m = Inv m × FreshDraw m d

module _ (f : Form) (d : Draw) (other : (("rtk_" ++ d.refresh_id) == f.refresh_token) ≡ false) where
  turn-Ready :
      (m : Manager) (c old_id : String) (old : Token)
      → Dict.get m.used_refresh f.refresh_token ≡ none
      → Ready d m
      → Ready d (rotate m c f.refresh_token old_id old)
  turn-Ready m c old_id old unused p = (
    rotate-Inv m c f.refresh_token old_id old p.0,
    FreshDraw-rotate m d c f.refresh_token old_id old other p.1,
  )

  pub handle_refresh_token-Inv :
      (m : Manager) → FreshDraw m d → Inv m → Inv (handle_refresh_token m f d).0
  handle_refresh_token-Inv m fresh v =
      handle_refresh_token_rule f d (Ready d) Inv (λ n p. p.0)
        (λ n c s b p. create-Inv n d c s b p.1 p.0) (λ n c p. revoke_family-Inv n c p.0)
        (λ n p. burn-Inv n f.refresh_token p.0)
        (λ n c p. burn-Inv _ f.refresh_token (revoke_family-Inv n c p.0)) turn-Ready m (v, fresh)

  pub issue_token-Inv : (m : Manager) → FreshDraw m d → Inv m → Inv (issue_token m f d).0
  issue_token-Inv m fresh v =
      issue_token_rule f d (Ready d) Inv (λ n p. p.0) (λ n c s b p. create-Inv n d c s b p.1 p.0)
        (λ n c p. revoke_family-Inv n c p.0) (λ n p. burn-Inv n f.refresh_token p.0)
        (λ n c p. burn-Inv _ f.refresh_token (revoke_family-Inv n c p.0)) turn-Ready m (v, fresh)
