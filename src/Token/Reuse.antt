-- ===== src/Token/Reuse.antt =====
-- internal/token/manager.go: what the second use of a refresh token meets, however much later it comes.
use mathlib.Core.Path.{subst}
use Prim.Native.String.{◌++◌}
use oauth4os.Common.{
  ℕ, ◌||◌, String, ◌≡◌, refl, sym, ap, ◌∙◌, inl, inr, false, none, some, ◌==◌, eq_iff, arith,
  Bool-cases, Option-cases,
}
use oauth4os.Common.Dict
use oauth4os.Common.Dict.{Dict, get-put}
use oauth4os.Token.State.{Token, Manager, Draw, Form, TokenBody, set_refresh_ttl, enable_jwt}
use oauth4os.Token.Clients.{authenticate_client, credentials, register_client}
use oauth4os.Token.Grant.{create_token_with_family, create_token_for_client}
use oauth4os.Token.Refresh.{invalid_grant, revoke_family, rotate, handle_refresh_token, issue_token}
use oauth4os.Token.Revoke.{revoke_by_client, revoke_token, revoke_value, revoke_rfc7009}
use oauth4os.Token.Maintain.{touch_token, needs_touch, window_or_hour, bind_dpop, cleanup, is_valid}
use oauth4os.Token.Invariant.{Inv}
use oauth4os.Token.Issuing.{FreshDraw, issue_token_rule, handle_refresh_token-Inv}
use oauth4os.Token.Rotation.{AllRevoked, revoke_family-AllRevoked}
use oauth4os.Token.Replay.{Granted, refresh-Rotation, reuse_refused}
use oauth4os.Token.Revocation.{GoneAt}
use oauth4os.Token.Forever.{Later, Later-Gone, invalid_of_Gone}
use oauth4os.Token.Trace.{
  Call, sets_ttl, enables_jwt, registers, issues, creates, revokes, revokes_value, revokes_client,
  touches, binds, cleans, step, Fresh, step-Inv,
}

-- The refresh token is marked as used by the client.
abbrev pub UsedBy : String → String → Manager → Type 0
UsedBy r c m = Dict.get m.used_refresh r ≡ some c

rotate-UsedBy :
    (r c : String) (f : Form) (m : Manager) (by old_id : String) (old : Token)
    → Dict.get m.used_refresh f.refresh_token ≡ none
    → UsedBy r c m
    → UsedBy r c (rotate m by f.refresh_token old_id old)
unfolding rotate
rotate-UsedBy r c f m by old_id old unused u =
    rw get-put (elim (Bool-cases (f.refresh_token == r)) [
      | inr miss ↦ rw miss u
      | inl hit ↦
          let clash : Dict.get m.used_refresh r ≡ none =
            ap (Dict.get m.used_refresh) (sym ((eq_iff f.refresh_token r).0 hit)) ∙ unused in
          absurd (cc (clash, u))
    ])

issue-UsedBy :
    (r c : String) (m : Manager) (f : Form) (d : Draw)
    → UsedBy r c m
    → UsedBy r c (issue_token m f d).0
unfolding create_token_with_family revoke_family
issue-UsedBy r c m f d u =
    issue_token_rule f d (UsedBy r c) (UsedBy r c) (λ n p. p) (λ n k s b p. p) (λ n k p. p)
      (λ n p. p) (λ n k p. p) (rotate-UsedBy r c f) m u

touch-UsedBy :
    (r c : String) (m : Manager) (now : ℕ) (k : String) (window : ℕ)
    → UsedBy r c m
    → UsedBy r c (touch_token m now k window).0
unfolding touch_token
touch-UsedBy r c m now k window u = elim (Option-cases (Dict.get m.tokens k)) [
  | inl e ↦ rw (e, touch_token) u
  | inr (tok, e) ↦ elim (Bool-cases (needs_touch now (window_or_hour window) tok)) [
    | inr quiet ↦ rw (e, touch_token) (rw quiet u)
    | inl due ↦ rw (e, touch_token) (rw due u)
  ]
]

value-UsedBy :
    (r c : String) (m : Manager) (value hint : String)
    → UsedBy r c m
    → UsedBy r c (revoke_value m value hint)
unfolding revoke_value
value-UsedBy r c m value hint u = elim (Bool-cases (hint == "refresh_token" || hint == "")) [
  | inl e ↦ rw (e, revoke_value) u
  | inr e ↦ rw (e, revoke_value) u
]

rfc7009-UsedBy :
    (r c : String) (m : Manager) (f : Form) → UsedBy r c m → UsedBy r c (revoke_rfc7009 m f).0
unfolding revoke_rfc7009
rfc7009-UsedBy r c m f u = ground (arith, u, value-UsedBy r c m f.token f.token_type_hint u)

step-UsedBy : (r c : String) (m : Manager) (call : Call) → UsedBy r c m → UsedBy r c (step m call)
unfolding step set_refresh_ttl enable_jwt register_client create_token_for_client revoke_token
    revoke_by_client bind_dpop cleanup create_token_with_family
step-UsedBy r c m (sets_ttl ttl life) u = u
step-UsedBy r c m (enables_jwt issuer kp) u = u
step-UsedBy r c m (registers k secret scopes uris) u = u
step-UsedBy r c m (issues f d) u = issue-UsedBy r c m f d u
step-UsedBy r c m (creates d k scopes) u = u
step-UsedBy r c m (revokes k) u = u
step-UsedBy r c m (revokes_value f) u = rfc7009-UsedBy r c m f u
step-UsedBy r c m (revokes_client k) u = u
step-UsedBy r c m (touches now k window) u = touch-UsedBy r c m now k window u
step-UsedBy r c m (binds k thumbprint) u = u
step-UsedBy r c m (cleans now) u = u

-- The states that calls lead to, where every name that is drawn is new.
pub data After (m : Manager) : Manager → Type 0 where
  at_once : After m m
  after_call : {n : Manager} (c : Call) → After m n → Fresh n c → After m (step n c)

After-kept :
    {m n : Manager} (r c : String) → After m n → Inv m × UsedBy r c m → Inv n × UsedBy r c n
After-kept r c at_once p = p
After-kept r c (after_call {n = n} call a fresh) p =
    let (v, u) = After-kept r c a p in (step-Inv n call fresh v, step-UsedBy r c n call u)

abbrev first : {A B : Type 0} → A × B → A
first (a, b) = a

-- A refresh token that was granted once is refused to whoever presents it again with credentials that
-- are good, whatever calls came in between. The reply names the reuse; then every access token that is
-- stored for the client that it was granted to is revoked, and each of these stays invalid whatever
-- calls follow, as long as no new token is given its name. (The state before the grant is one where the
-- maps are in step, and the names drawn in the grant and in the calls in between are new.)
pub refresh_replay :
    (m : Manager) (f g : Form) (d e : Draw) (n q : Manager) (b : TokenBody)
    → Inv m
    → FreshDraw m d
    → (("rtk_" ++ d.refresh_id) == f.refresh_token) ≡ false
    → Granted m f d n b
    → After n q
    → g.refresh_token ≡ f.refresh_token
    → authenticate_client q (credentials g).0 (credentials g).1 ≡ none
    → let (caught, reply) = handle_refresh_token q g e in
      (reply ≡ invalid_grant "refresh token reuse detected — all tokens revoked")
      × AllRevoked caught (credentials f).0
      × ((id : String) (tok : Token) (s : Manager) (now : ℕ)
          → Dict.get caught.tokens id ≡ some tok
          → tok.client_id ≡ (credentials f).0
          → Later id caught s
          → is_valid s now id ≡ false)
refresh_replay m f g d e n q b v fresh other won between same good =
    let c = (credentials f).0 in
    let inv_n : Inv n = subst Inv (ap first won) (handle_refresh_token-Inv f d other m fresh v) in
    let (inv_q, marked) =
      After-kept f.refresh_token c between
        (inv_n, (refresh-Rotation m f d n b fresh other won).used) in
    let used : UsedBy g.refresh_token c q = rw same marked in
    let all = revoke_family-AllRevoked q c inv_q in
    rw (reuse_refused q g e c used good) (
      refl,
      all,
      λ id tok s now there mine later.
          let gone : GoneAt id (revoke_family q c) = rw there (all id tok there mine) in
          invalid_of_Gone s now id (Later-Gone later gone),
    )
