-- ===== src/Token/Replay.antt =====
-- internal/token/manager.go: what a granted refresh leaves behind, and how a used
-- refresh token is refused.
use Prim.Native.String.{◌++◌}
use oauth4os.Common.{
  ℕ, String, ◌≡◌, ◌≢◌, refl, sym, ◌∙◌, inl, inr, true, false, none, some, List, arith, ◌==◌, eq_iff,
  eq_refl, contains, Option-cases,
}
use oauth4os.Common.Dict
use oauth4os.Common.Dict.{Dict, map_option, get-put, get-remove, get-adjust}
use oauth4os.Token.State.{Token, Manager, Draw, Form, Reply, granted, TokenBody}
use oauth4os.Token.Clients.{authenticate_client, credentials}
use oauth4os.Token.Grant.{minted, access_id, store_token}
use oauth4os.Token.Refresh.{
  revoke, revoke_family, invalid_grant, rotate, redeem, narrow, reissue, handle_refresh_token,
}
use oauth4os.Token.Issuing.{FreshDraw}
use oauth4os.Token.Rotation.{
  Redeems, redeem-rotated, redeem-refuses, reissue-granted, narrow-subset,
}

abbrev first : Manager × Reply → Manager
first (m, r) = m

-- A refresh that was granted.
abbrev pub Granted : Manager → Form → Draw → Manager → TokenBody → Type 0
Granted m f d n b = handle_refresh_token m f d ≡ (n, granted b)

-- The parts of a granted refresh: the token redeemed, the scopes kept, the state and the name.
abbrev pub Parts : Manager → Form → Draw → Manager → TokenBody → Type 0
Parts m f d n b =
    (old_id : String) × (old : Token) × (kept : List String) × Redeems m d.now (credentials f).0
      f.refresh_token old_id old
    × (narrow f.scope old.scopes ≡ some kept)
    × (let c = (credentials f).0 in
        let mid = rotate m c f.refresh_token old_id old in
        let tok = minted mid d c kept old.family_created_at in
        (n ≡ store_token mid tok) × (b.access_token ≡ tok.id))

join-Parts :
    (m : Manager) (f : Form) (d : Draw) (n : Manager) (b : TokenBody) (old_id : String)
    (old : Token) (mid : Manager) (scopes kept : List String) (born : ℕ)
    → Redeems m d.now (credentials f).0 f.refresh_token old_id old
    → mid ≡ rotate m (credentials f).0 f.refresh_token old_id old
    → scopes ≡ old.scopes
    → born ≡ old.family_created_at
    → narrow f.scope scopes ≡ some kept
    → n ≡ store_token mid (minted mid d (credentials f).0 kept born)
    → b.access_token ≡ (minted mid d (credentials f).0 kept born).id
    → Parts m f d n b
join-Parts m f d n b old_id old mid scopes kept born r p q t k state name =
    let c = (credentials f).0 in
    (
      old_id,
      old,
      kept,
      r,
      cc,
      (
        state ∙ (λ i. store_token (p i) (minted (p i) d c kept (t i))),
        name ∙ (λ i. (minted (p i) d c kept (t i)).id),
      ),
    )

pub Granted-Parts :
    (m : Manager) (f : Form) (d : Draw) (n : Manager) (b : TokenBody)
    → Granted m f d n b
    → Parts m f d n b
unfolding handle_refresh_token
Granted-Parts m f d n b e =
    let c = (credentials f).0 in
    elim (Option-cases (authenticate_client m c (credentials f).1)) [
      | inr (err, bad) ↦ absurd (ground arith)
      | inl good ↦
          let (mid, scopes, born, kept, x, k, state, name, _) =
            reissue-granted (redeem m d.now c f.refresh_token) c d f.scope n b (ground arith)
              (λ m' r h. redeem-refuses m d.now c f.refresh_token b m' r h) in
          let (old_id, old, r, p, q, t) =
            redeem-rotated m d.now c f.refresh_token mid scopes born x in
          join-Parts m f d n b old_id old mid scopes kept born r p q t k state name
    ]

-- What a granted refresh leaves behind.
pub record Rotation (m : Manager) (f : Form) (d : Draw) (n : Manager) (b : TokenBody) : Type 0 where
  -- the token that was presented, and what made it good
  pub old_id : String
  pub old : Token
  pub redeems : Redeems m d.now (credentials f).0 f.refresh_token old_id old
  -- it is used up, and the access token that came with it is revoked
  pub used : Dict.get n.used_refresh f.refresh_token ≡ some (credentials f).0
  pub gone : Dict.get n.refresh f.refresh_token ≡ none
  pub old_revoked : Dict.get n.tokens old_id ≡ some (revoke old)
  -- the new token: of the same client and family, with no scope that the old one had not
  pub tok : Token
  pub stored : Dict.get n.tokens b.access_token ≡ some tok
  pub same_client : tok.client_id ≡ old.client_id
  pub narrower : (s : String) → contains tok.scopes s ≡ true → contains old.scopes s ≡ true
  pub same_birth : old.family_created_at ≢ 0 → tok.family_created_at ≡ old.family_created_at
  pub unrevoked : tok.revoked ≡ false

module _ (m : Manager) (c r old_id : String) (old : Token) (tok : Token)
    (there : Dict.get m.tokens old_id ≡ some old) (fresh : Dict.get m.tokens tok.id ≡ none)
    (other : (tok.refresh_token == r) ≡ false) where
  stored_old :
      Dict.get (store_token (rotate m c r old_id old) tok).tokens old_id ≡ some (revoke old)
  unfolding store_token rotate
  stored_old = ground (
    arith,
    get-put (Dict.adjust m.tokens old_id revoke) tok.id old_id tok,
    get-adjust m.tokens old_id old_id revoke,
    eq_iff tok.id old_id,
    eq_refl old_id,
  )

  stored_new : Dict.get (store_token (rotate m c r old_id old) tok).tokens tok.id ≡ some tok
  unfolding store_token rotate
  stored_new = simp (get-put, eq_refl)

  stored_gone : Dict.get (store_token (rotate m c r old_id old) tok).refresh r ≡ none
  unfolding store_token rotate
  stored_gone = ground (
    arith,
    get-put (Dict.remove m.refresh r) tok.refresh_token r tok.id,
    get-remove m.refresh r r,
    eq_refl r,
  )

  stored_used : Dict.get (store_token (rotate m c r old_id old) tok).used_refresh r ≡ some c
  unfolding store_token rotate
  stored_used = simp (get-put, eq_refl)

module _ (m : Manager) (f : Form) (d : Draw) (n : Manager) (b : TokenBody) (fresh : FreshDraw m d)
    (other : (("rtk_" ++ d.refresh_id) == f.refresh_token) ≡ false) where
  Rotation-of : Parts m f d n b → Rotation m f d n b
  unfolding rotate access_id
  Rotation-of (old_id, old, kept, r, k, (state, name)) =
      let c = (credentials f).0 in
      let tok : Token =
        minted (rotate m c f.refresh_token old_id old) d c kept old.family_created_at in
      let unborn = (fresh c kept old.family_created_at).unborn in
      record {
        old_id = old_id;
        old = old;
        redeems = r;
        used = rw state (stored_used m c f.refresh_token old_id old tok r.stored unborn other);
        gone = rw state (stored_gone m c f.refresh_token old_id old tok r.stored unborn other);
        old_revoked =
            rw state (stored_old m c f.refresh_token old_id old tok r.stored unborn other);
        tok = tok;
        stored =
            rw (state, name) (stored_new m c f.refresh_token old_id old tok r.stored unborn other);
        same_client = sym r.own;
        narrower = λ s h. narrow-subset f.scope old.scopes kept s k h;
        same_birth = λ h. ground arith;
        unrevoked = refl;
      }

  -- A granted refresh used up a refresh token that was known, unused, in time and the client's own:
  -- afterwards that token is marked used and redeems nothing, its access token is revoked, and the
  -- new access token is stored, unrevoked, for the same client and family, with scopes among the
  -- old ones. The names drawn for the new token must be new.
  pub refresh-Rotation : Granted m f d n b → Rotation m f d n b
  refresh-Rotation e = Rotation-of (Granted-Parts m f d n b e)

-- Reuse detection, on any state where the token is marked as used: the call is refused.
pub reuse_refused :
    (m : Manager) (f : Form) (d : Draw) (stolen : String)
    → Dict.get m.used_refresh f.refresh_token ≡ some stolen
    → authenticate_client m (credentials f).0 (credentials f).1 ≡ none
    → handle_refresh_token m f d
      ≡ (revoke_family m stolen, invalid_grant "refresh token reuse detected — all tokens revoked")
unfolding handle_refresh_token reissue redeem
reuse_refused m f d stolen used good = rw (good, handle_refresh_token) (rw (used, redeem, reissue))
