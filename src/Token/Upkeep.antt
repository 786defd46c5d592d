-- ===== src/Token/Upkeep.antt =====
-- internal/token/manager.go: sliding expiry, DPoP binding, RFC 7009 and the statistics.
use oauth4os.Common.{
  ◌⊎◌, ℕ, ◌+◌, ◌/◌, ◌<◌, ◌&&◌, String, ◌≡◌, ◌≢◌, ◌∙◌, true, false, not, none, some, List, [], ◌∷◌,
  arith, ◌==◌, eq_iff, eq_refl, eq_complete, length, ltb, if◌then◌else◌,
}
use oauth4os.Common.Dict
use oauth4os.Common.Dict.{Dict, size, map_option, get-put, get-adjust, get-adjust_all}
use oauth4os.Token.State.{Token, Manager, Form, status}
use oauth4os.Token.Refresh.{revoke}
use oauth4os.Token.Revoke.{revocation_credentials, revoke_value, revoke_if_refresh, revoke_rfc7009}
use oauth4os.Token.Maintain.{
  is_valid, needs_touch, window_or_hour, extend, touch_token, stats_loop, stats, unrevoked,
  list_tokens,
}

-- Touching a stored token extends it exactly if it is not revoked and less than half the window is
-- left, counted from now; it then has the whole window, and so it never loses time. A window of 0
-- stands for an hour.
pub touch_extends :
    (m : Manager) (now : ℕ) (id : String) (window : ℕ) (tok : Token)
    → Dict.get m.tokens id ≡ some tok
    → let (n, done) = touch_token m now id window in
      let w = window_or_hour window in
      (done ≡ (not tok.revoked && ltb tok.expires_at (now + w / 2)))
      × (Dict.get n.tokens id
          ≡ some (record tok { expires_at = if done then now + w else tok.expires_at }))
      × ((done ≡ false) ⊎ (tok.expires_at < now + w))
unfolding touch_token needs_touch
touch_extends m now id window tok there =
    rw (there, touch_token)
      (ground (
        arith,
        there,
        get-put m.tokens id id (extend (now + window_or_hour window) tok),
        eq_refl id,
      ))

stats_sum :
    (now : ℕ) (l : List (String × Token)) (a r e : ℕ)
    → let (active, revoked, expired) = stats_loop now l a r e in
      active + revoked + expired ≡ length l + a + r + e
unfolding stats_loop
stats_sum now [] a r e = omega arith
stats_sum now ((id, tok) ∷ l) a r e =
    let late = not tok.revoked && ltb tok.expires_at now in
    let fine = not tok.revoked && not (ltb tok.expires_at now) in
    ground (
      arith,
      stats_sum now l (if fine then a + 1 else a) (if tok.revoked then r + 1 else r)
          (if late then e + 1 else e),
    )

stats_revoked :
    (now : ℕ) (l : List (String × Token)) (a r e : ℕ)
    → (stats_loop now l a r e).1 + length (unrevoked l) ≡ length l + r
unfolding stats_loop unrevoked
stats_revoked now [] a r e = omega arith
stats_revoked now ((id, tok) ∷ l) a r e =
    let late = not tok.revoked && ltb tok.expires_at now in
    let fine = not tok.revoked && not (ltb tok.expires_at now) in
    ground (
      arith,
      stats_revoked now l (if fine then a + 1 else a) (if tok.revoked then r + 1 else r)
          (if late then e + 1 else e),
    )

-- The statistics count every stored token once, as active, revoked or expired, and those that are
-- not revoked are the ones that ListTokens shows.
pub stats_partition :
    (m : Manager) (now : ℕ)
    → let s = stats m now in
      (s.active + s.revoked + s.expired ≡ s.total) × (s.active + s.expired ≡ length (list_tokens m))
unfolding stats list_tokens
stats_partition m now =
    omega (arith, stats_sum now m.tokens.range 0 0 0, stats_revoked now m.tokens.range 0 0 0)

revoke_value_invalid :
    (m : Manager) (value hint : String) (now : ℕ)
    → is_valid (revoke_value m value hint) now value ≡ false
unfolding revoke_value is_valid
revoke_value_invalid m value hint now = ground (
  arith,
  get-adjust m.tokens value value revoke,
  eq_refl value,
  get-adjust_all (Dict.adjust m.tokens value revoke) value (revoke_if_refresh value),
)

anonymous : (f : Form) → f.basic_auth ≡ none → (revocation_credentials f).0 ≡ f.client_id
unfolding revocation_credentials
anonymous f basic = ground arith

-- A call of the RFC 7009 endpoint that names no client is not authenticated: it revokes any access
-- token that it presents, whoever the token belongs to.
pub revoke_anonymous :
    (m : Manager) (f : Form) (now : ℕ)
    → f.basic_auth ≡ none
    → f.client_id ≡ ""
    → f.token ≢ ""
    → let (n, reply) = revoke_rfc7009 m f in (reply ≡ status 200) × (is_valid n now f.token ≡ false)
unfolding revoke_rfc7009
revoke_anonymous m f now basic anon given =
    let nobody : ((revocation_credentials f).0 == "") ≡ true =
      eq_complete _ _ (anonymous f basic ∙ anon) in
    ground (arith, nobody, eq_iff f.token "", revoke_value_invalid m f.token f.token_type_hint now)
