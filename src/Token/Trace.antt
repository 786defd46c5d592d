-- ===== src/Token/Trace.antt =====
-- internal/token/manager.go: histories of calls. One call is one step: the calls of several
-- requests interleave in any order.
use Prim.Native.String.{◌++◌}
use oauth4os.Common.{
  ℕ, String, ◌≡◌, refl, false, some, List, [], ◌∷◌, arith, ◌==◌, ◌+◌, ◌||◌, eq_sound, Option-cases,
  Bool-cases, inl, inr,
}
use oauth4os.Common.Dict
use oauth4os.Common.Dict.{Dict, get-empty, get-put, get-adjust-none}
use oauth4os.Token.State.{
  Token, KeyProvider, Manager, Draw, Form, new_manager, set_refresh_ttl, enable_jwt,
}
use oauth4os.Token.Clients.{register_client}
use oauth4os.Token.Grant.{family, create_token_for_client}
use oauth4os.Token.Refresh.{issue_token, revoke}
use oauth4os.Token.Revoke.{
  revoke_counting, revoke_by_client, revoke_token, revoke_if_refresh, revoke_value, revoke_rfc7009,
  is_live,
}
use oauth4os.Token.Maintain.{touch_token, window_or_hour, extend, bind_dpop, bind_to, cleanup}
use oauth4os.Token.Invariant.{
  Inv, SameToken, SameTokens, SameTokens-refl, SameTokens-trans, SameTokens-adjust,
  SameTokens-adjust_all, SameToken-revoke,
}
use oauth4os.Token.Steps.{Inv-write}
use oauth4os.Token.Cleanup.{cleanup-Inv}
use oauth4os.Token.Issuing.{FreshDraw, create-Inv, issue_token-Inv}

-- The calls that change the manager.
pub data Call : Type 0 where
  sets_ttl : ℕ → ℕ → Call
  enables_jwt : String → KeyProvider → Call
  registers : String → String → List String → List String → Call
  issues : Form → Draw → Call
  creates : Draw → String → List String → Call
  revokes : String → Call
  revokes_value : Form → Call
  revokes_client : String → Call
  touches : ℕ → String → ℕ → Call
  binds : String → String → Call
  cleans : ℕ → Call

unfoldable pub step : Manager → Call → Manager
step m (sets_ttl ttl life) = set_refresh_ttl m ttl life
step m (enables_jwt issuer kp) = enable_jwt m issuer kp
step m (registers id secret scopes uris) = register_client m id secret scopes uris
step m (issues f d) = (issue_token m f d).0
step m (creates d client_id scopes) = (create_token_for_client m d client_id scopes).0
step m (revokes id) = (revoke_token m id).0
step m (revokes_value f) = (revoke_rfc7009 m f).0
step m (revokes_client client_id) = (revoke_by_client m client_id).0
step m (touches now id window) = (touch_token m now id window).0
step m (binds id thumbprint) = bind_dpop m id thumbprint
step m (cleans now) = (cleanup m now).0

-- The names that a call makes are new, and not the refresh token that it presents.
abbrev pub Fresh : Manager → Call → Type 0
Fresh m (issues f d) = FreshDraw m d × ((("rtk_" ++ d.refresh_id) == f.refresh_token) ≡ false)
Fresh m (creates d client_id scopes) = FreshDraw m d
Fresh m (sets_ttl _ _) = Unit
Fresh m (enables_jwt _ _) = Unit
Fresh m (registers _ _ _ _) = Unit
Fresh m (revokes _) = Unit
Fresh m (revokes_value _) = Unit
Fresh m (revokes_client _) = Unit
Fresh m (touches _ _ _) = Unit
Fresh m (binds _ _) = Unit
Fresh m (cleans _) = Unit

-- The states that calls lead to, from a new manager, with fresh draws.
pub data Reach : Manager → Type 0 where
  start : Reach new_manager
  next : {m : Manager} (c : Call) → Reach m → Fresh m c → Reach (step m c)

new_manager-Inv : Inv new_manager
unfolding new_manager
new_manager-Inv = record {
  named = λ id tok e. cc (get-empty {V = Token} id);
  in_family = λ id tok e. cc (get-empty {V = Token} id);
  leads = λ r id e. absurd (cc (get-empty {V = String} r));
  unused = λ r id e. cc (get-empty {V = String} r);
}

-- Fields that the invariant does not speak of.
Inv-settings :
    (m n : Manager)
    → n.tokens ≡ m.tokens
    → n.refresh ≡ m.refresh
    → n.used_refresh ≡ m.used_refresh
    → n.families ≡ m.families
    → Inv m
    → Inv n
Inv-settings m n t r u f v = record {
  named = rw t v.named;
  in_family = rw (t, f) v.in_family;
  leads = rw (r, t) v.leads;
  unused = rw (r, u) v.unused;
}

bind-SameToken : (thumbprint : String) (tok : Token) → SameToken tok (bind_to thumbprint tok)
bind-SameToken thumbprint tok = (refl, refl, refl, λ h. h)

revoke_if-SameToken : (value : String) (tok : Token) → SameToken tok (revoke_if_refresh value tok)
revoke_if-SameToken value tok = elim (Bool-cases (tok.refresh_token == value)) [
  | inl e ↦ rw e (SameToken-revoke tok)
  | inr e ↦ rw e (refl, refl, refl, λ h. h)
]

SameTokens-revoke_counting :
    (ids : List String) (d : Dict Token) (n : ℕ) → SameTokens d (revoke_counting ids d n).0
unfolding revoke_counting
SameTokens-revoke_counting [] d n = SameTokens-refl d
SameTokens-revoke_counting (id ∷ ids) d n = elim (Bool-cases (is_live (Dict.get d id))) [
  | inl e ↦
      rw (e, revoke_counting)
        (SameTokens-trans d (Dict.adjust d id revoke) _
          (SameTokens-adjust d id revoke SameToken-revoke)
          (SameTokens-revoke_counting ids (Dict.adjust d id revoke) (n + 1)))
  | inr e ↦ rw (e, revoke_counting) (SameTokens-revoke_counting ids d n)
]

-- A write at the key of a token that is there.
SameTokens-put :
    (d : Dict Token) (k : String) (a b : Token)
    → Dict.get d k ≡ some a
    → SameToken a b
    → SameTokens d (Dict.put d k b)
SameTokens-put d k a b there same id = elim (Bool-cases (k == id)) [
  | inl e ↦ rw (get-put, e, ← eq_sound k id e, there) same
  | inr e ↦ rw (get-put, e) (SameTokens-refl d id)
]

revoke_value-Inv : (m : Manager) (value hint : String) → Inv m → Inv (revoke_value m value hint)
unfolding revoke_value
revoke_value-Inv m value hint v =
    let one = SameTokens-adjust m.tokens value revoke SameToken-revoke in
    elim (Bool-cases (hint == "refresh_token" || hint == "")) [
      | inl e ↦
          rw (e, revoke_value)
            (Inv-write m _
              (SameTokens-trans m.tokens (Dict.adjust m.tokens value revoke) _ one
                (SameTokens-adjust_all _ (revoke_if_refresh value) (revoke_if-SameToken value)))
              v)
      | inr e ↦ rw (e, revoke_value) (Inv-write m _ one v)
    ]

revoke_rfc7009-Inv : (m : Manager) (f : Form) → Inv m → Inv (revoke_rfc7009 m f).0
unfolding revoke_rfc7009
revoke_rfc7009-Inv m f v = ground (arith, v, revoke_value-Inv m f.token f.token_type_hint v)

touch_token-Inv :
    (m : Manager) (now : ℕ) (id : String) (window : ℕ) → Inv m → Inv (touch_token m now id window).0
unfolding touch_token
touch_token-Inv m now id window v = elim (Option-cases (Dict.get m.tokens id)) [
  | inl e ↦ rw (e, touch_token) v
  | inr (tok, e) ↦
      let write =
        Inv-write m _
          (SameTokens-put m.tokens id tok (extend (now + window_or_hour window) tok) e
            (refl, refl, refl, λ h. h))
          v in
      rw (e, touch_token) (ground (arith, v, write))
]

-- Every call keeps the invariant of the manager's maps.
pub step-Inv : (m : Manager) (c : Call) → Fresh m c → Inv m → Inv (step m c)
unfolding step set_refresh_ttl enable_jwt register_client create_token_for_client revoke_token
    revoke_by_client bind_dpop
step-Inv m (sets_ttl ttl life) f v = Inv-settings m _ refl refl refl refl v
step-Inv m (enables_jwt issuer kp) f v = Inv-settings m _ refl refl refl refl v
step-Inv m (registers id secret scopes uris) f v = Inv-settings m _ refl refl refl refl v
step-Inv m (issues form d) f v = issue_token-Inv form d f.1 m f.0 v
step-Inv m (creates d client_id scopes) f v = create-Inv m d client_id scopes 0 f v
step-Inv m (revokes id) f v =
    Inv-write m _ (SameTokens-adjust m.tokens id revoke SameToken-revoke) v
step-Inv m (revokes_value form) f v = revoke_rfc7009-Inv m form v
step-Inv m (revokes_client client_id) f v =
    Inv-write m _ (SameTokens-revoke_counting (family m client_id) m.tokens 0) v
step-Inv m (touches now id window) f v = touch_token-Inv m now id window v
step-Inv m (binds id thumbprint) f v =
    Inv-write m _ (SameTokens-adjust m.tokens id (bind_to thumbprint) (bind-SameToken thumbprint)) v
step-Inv m (cleans now) f v = cleanup-Inv m now v

-- Every state that calls lead to keeps the manager's maps in step: a token stands under its own
-- name and in the family of its client, and a refresh token leads to the stored access token that
-- it came with, and was not used before.
pub Reach-Inv : {m : Manager} → Reach m → Inv m
Reach-Inv start = new_manager-Inv
Reach-Inv (next {m = m} c r f) = step-Inv m c f (Reach-Inv r)
