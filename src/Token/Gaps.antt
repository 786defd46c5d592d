-- ===== src/Token/Gaps.antt =====
-- internal/token/manager.go: what the refresh, clean-up and revocation handlers let through.
use mathlib.Core.Path.{subst}
use oauth4os.Common.{
  ℕ, ◌<◌, String, ◌≡◌, refl, sym, ap, ◌∙◌, inl, inr, true, false, none, some, arith, eq_iff,
  eq_refl, Option-cases, eq_of_some-eq,
}
use oauth4os.Common.Dict
use oauth4os.Common.Dict.{Dict, map_option, get-put, get-remove, get-adjust}
use oauth4os.Common.Text.{join}
use oauth4os.Token.State.{Token, Manager, Draw, Form, granted, failed, TokenBody}
use oauth4os.Token.Clients.{authenticate_client, credentials}
use oauth4os.Token.Grant.{minted, store_token, create_token_with_family}
use oauth4os.Token.Refresh.{
  revoke, invalid_grant, rotated, rotate, redeem_token, redeem, narrow, reissue,
  handle_refresh_token,
}
use oauth4os.Token.Revoke.{revoke_token}
use oauth4os.Token.Maintain.{is_valid, is_dead, cleanup}
use oauth4os.Token.Invariant.{Inv}
use oauth4os.Token.Cleanup.{cleanup-alive, cleanup-fewer}
use oauth4os.Token.Steps.{rotate-Inv}
use oauth4os.Token.Replay.{reuse_refused}
use oauth4os.Token.Rotation.{Redeems, AllRevoked, revoke_family-AllRevoked}

dead_late : (now : ℕ) (tok : Token) → tok.expires_at < now → is_dead now tok ≡ false → ⊥
unfolding is_dead
dead_late now tok late alive = ground arith

-- What Redeems asks for is enough for the locked part to rotate.
pub redeem-Redeems :
    (m : Manager) (now : ℕ) (c r old_id : String) (old : Token)
    → Redeems m now c r old_id old
    → redeem m now c r ≡ rotated (rotate m c r old_id old) old.scopes old.family_created_at
unfolding redeem redeem_token
redeem-Redeems m now c r old_id old x =
    rw (x.fresh, redeem)
      (rw (x.known, redeem)
        (rw (x.stored, redeem)
          (ground (arith, x.own, x.in_time, x.in_life, eq_iff old.client_id c))))

pub stored_valid :
    (m : Manager) (tok : Token) (now : ℕ)
    → tok.revoked ≡ false
    → now < tok.expires_at
    → is_valid (store_token m tok) now tok.id ≡ true
unfolding is_valid store_token
stored_valid m tok now live early =
    ground (arith, get-put m.tokens tok.id tok.id tok, eq_refl tok.id)

revoked_invalid :
    (m : Manager) (now : ℕ) (id : String) (tok : Token)
    → Dict.get m.tokens id ≡ some tok
    → tok.revoked ≡ true
    → is_valid m now id ≡ false
unfolding is_valid
revoked_invalid m now id tok there h = ground arith

module _ (m : Manager) (f : Form) (d : Draw) (old_id : String) (old : Token)
    (good : authenticate_client m (credentials f).0 (credentials f).1 ≡ none)
    (x : Redeems m d.now (credentials f).0 f.refresh_token old_id old) where
  abbrev pub after_rotation : Manager
  after_rotation = rotate m (credentials f).0 f.refresh_token old_id old

  handle_as_reissue :
      handle_refresh_token m f d
      ≡ reissue
          (rotated after_rotation old.scopes old.family_created_at)
          (credentials f).0
          d
          f.scope
  unfolding handle_refresh_token
  handle_as_reissue =
      rw (good, handle_refresh_token)
        (ap (λ z. reissue z (credentials f).0 d f.scope)
          (redeem-Redeems m d.now (credentials f).0 f.refresh_token old_id old x))

  refresh_wide :
      narrow f.scope old.scopes ≡ none
      → handle_refresh_token m f d
        ≡ (after_rotation, failed 400 "invalid_scope" "requested scope exceeds original grant")
  unfolding reissue
  refresh_wide k = handle_as_reissue ∙ rw (k, reissue)

  -- A request for a scope that was not granted is refused only after its refresh token was used up:
  -- the next call that presents that token, with good credentials, is taken for a theft, and every
  -- access token of the client is revoked.
  pub refresh_wide_locks_out :
      (g : Form) (e : Draw)
      → Inv m
      → narrow f.scope old.scopes ≡ none
      → g.refresh_token ≡ f.refresh_token
      → authenticate_client (handle_refresh_token m f d).0 (credentials g).0 (credentials g).1
        ≡ none
      → let (n, reply) = handle_refresh_token m f d in
        let (after, second) = handle_refresh_token n g e in
        (reply ≡ failed 400 "invalid_scope" "requested scope exceeds original grant")
        × (second ≡ invalid_grant "refresh token reuse detected — all tokens revoked")
        × AllRevoked after (credentials f).0
  refresh_wide_locks_out g e v k same ok =
      let c = (credentials f).0 in
      let used : Dict.get after_rotation.used_refresh g.refresh_token ≡ some c =
        unfold rotate in simp (same, get-put, eq_refl) in
      let known : authenticate_client after_rotation (credentials g).0 (credentials g).1 ≡ none =
        rw (refresh_wide k) at ok in
      rw (refresh_wide k) (
        refl,
        rw (reuse_refused after_rotation g e c used known) refl,
        rw (reuse_refused after_rotation g e c used known) (
            revoke_family-AllRevoked after_rotation c
              (rotate-Inv m c f.refresh_token old_id old v)),
      )

  new_token : Token
  new_token = minted after_rotation d (credentials f).0 old.scopes old.family_created_at

  pub refresh_plain :
      f.scope ≡ ""
      → (n : Manager) × (b : TokenBody) × (handle_refresh_token m f d ≡ (n, granted b))
        × (is_valid n d.now b.access_token ≡ true)
  unfolding reissue create_token_with_family narrow new_token
  refresh_plain plain =
      let kept : narrow f.scope old.scopes ≡ some old.scopes = rw plain in
      (
        store_token after_rotation new_token,
        record {
          access_token = new_token.id;
          token_type = "Bearer";
          expires_in = 3600;
          refresh_token = new_token.refresh_token;
          scope = join old.scopes " ";
        },
        handle_as_reissue ∙ rw (kept, reissue),
        stored_valid after_rotation new_token d.now refl (omega arith),
      )

-- An access token that was revoked by name can still be refreshed, as if nothing had been revoked:
-- with the refresh token that came with it its client gets a new access token, which is valid.
pub refresh_after_revoke :
    (m : Manager) (f : Form) (d : Draw) (old_id : String) (old : Token)
    → authenticate_client m (credentials f).0 (credentials f).1 ≡ none
    → Redeems m d.now (credentials f).0 f.refresh_token old_id old
    → f.scope ≡ ""
    → let n = (revoke_token m old_id).0 in
      (is_valid n d.now old_id ≡ false)
      × (k : Manager) × (b : TokenBody) × (handle_refresh_token n f d ≡ (k, granted b))
      × (is_valid k d.now b.access_token ≡ true)
unfolding revoke_token
refresh_after_revoke m f d old_id old good x plain =
    let n : Manager = (revoke_token m old_id).0 in
    let there : Dict.get n.tokens old_id ≡ some (revoke old) = rw (get-adjust, eq_refl, x.stored) in
    let (k, b, won, valid) =
      refresh_plain n f d old_id (revoke old) (unfold authenticate_client in good)
        (record {
          fresh = x.fresh;
          known = x.known;
          stored = there;
          own = x.own;
          in_time = x.in_time;
          in_life = x.in_life;
        })
        plain in
    (revoked_invalid n d.now old_id (revoke old) there refl, k, b, won, valid)

-- Clean-up takes the refresh token of every access token that has expired, however long the refresh
-- token itself was to last: refreshing with it then fails.
pub refresh_after_cleanup :
    (m : Manager) (f : Form) (d : Draw) (now : ℕ) (old_id : String) (old : Token)
    → Inv m
    → authenticate_client m (credentials f).0 (credentials f).1 ≡ none
    → Redeems m d.now (credentials f).0 f.refresh_token old_id old
    → old.expires_at < now
    → let n = (cleanup m now).0 in
      handle_refresh_token n f d ≡ (n, invalid_grant "refresh token not found or expired")
unfolding handle_refresh_token reissue redeem
refresh_after_cleanup m f d now old_id old v good x late =
    let n : Manager = (cleanup m now).0 in
    let ok : authenticate_client n (credentials f).0 (credentials f).1 ≡ none =
      unfold cleanup authenticate_client in good in
    let unused : Dict.get n.used_refresh f.refresh_token ≡ none = unfold cleanup in x.fresh in
    elim (Option-cases (Dict.get n.refresh f.refresh_token)) [
      | inl lost ↦
          rw (ok, handle_refresh_token) (rw (unused, redeem, reissue) (rw (lost, redeem, reissue)))
      | inr (id, kept) ↦
          let (tok, there, names) =
            v.leads f.refresh_token id (cleanup-fewer m now f.refresh_token id kept) in
          let alive = cleanup-alive m now f.refresh_token id id tok kept there names in
          let same : id ≡ old_id =
            eq_of_some-eq _ _ (sym (cleanup-fewer m now f.refresh_token id kept) ∙ x.known) in
          let it : tok ≡ old = eq_of_some-eq _ _ (sym there ∙ rw same x.stored) in
          absurd (dead_late now old late (subst (λ t. is_dead now t ≡ false) it alive))
    ]
