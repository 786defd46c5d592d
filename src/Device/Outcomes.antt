-- ===== src/Device/Outcomes.antt =====
-- internal/device/handler.go: who gets tokens, how often, and when.
use oauth4os.Common.{
  ℕ, String, ◌≡◌, ◌≢◌, ◌⊎◌, refl, inl, inr, false, none, some, List, [], ◌∷◌, ◌++◌, ◌==◌, eq_iff,
  eq_refl, Bool-cases, Option-cases, ltb, arith, All,
}
use oauth4os.Common.Dict
use oauth4os.Common.Dict.{Dict, get-remove, get-put, get-sweep, unless}
use oauth4os.Device.Handler.{
  Handler, failed, tokens, Look, answer, ready, poll_look, device_grant, clean_up, cleanup,
  request_code, approve, poll_token,
}
use oauth4os.Device.Facts.{look_ready}
use oauth4os.Device.History.{
  Event, requested, finished, decided, cleaned, apply, after, Sometime, MadeAt, AgreedTo, DeniedTo,
  after-Inv,
}

Look-cases : (l : Look) → ((text : String) × (l ≡ answer text)) ⊎ ((a : ℕ) × (l ≡ ready a))
Look-cases (answer text) = inl (text, refl)
Look-cases (ready a) = inr (a, refl)

-- The call is no request that was given the device code.
abbrev pub OtherCode : String → Event → Type 0
OtherCode dc (requested client_id scope d uc now) = d ≢ dc
OtherCode dc (finished d a) = Unit
OtherCode dc (decided uc action) = Unit
OtherCode dc (cleaned now) = Unit

gone-removed :
    (d : Dict ℕ) (k dc : String) → Dict.get d dc ≡ none → Dict.get (Dict.remove d k) dc ≡ none
gone-removed d k dc h = rw get-remove (ground (arith, h))

gone-apply :
    (h : Handler) (dc : String) (e : Event)
    → OtherCode dc e
    → Dict.get h.codes dc ≡ none
    → Dict.get (apply h e).codes dc ≡ none
unfolding request_code approve cleanup clean_up
gone-apply h dc (requested client_id scope d uc now) o g = elim (Bool-cases (client_id == "")) [
  | inl blank ↦ rw (blank, request_code, apply) g
  | inr given ↦ rw (given, request_code, apply) (rw get-put (ground (arith, g, o, eq_iff d dc)))
]
gone-apply h dc (finished d a) o g = gone-removed h.codes d dc g
gone-apply h dc (decided uc action) o g = elim (Option-cases (Dict.get h.by_user uc)) [
  | inl lost ↦ rw (lost, approve, apply) g
  | inr (a, there) ↦ rw (there, approve, apply) g
]
gone-apply h dc (cleaned now) o g = rw get-sweep (rw g refl)

gone-after :
    (fs es : List Event) (dc : String)
    → All (OtherCode dc) fs
    → Dict.get (after es).codes dc ≡ none
    → Dict.get (after (fs ++ es)).codes dc ≡ none
gone-after [] es dc o g = g
gone-after (f ∷ fs) es dc o g = gone-apply (after (fs ++ es)) dc f o.0 (gone-after fs es dc o.1 g)

gone-answer :
    (h : Handler) (grant dc : String) (now a : ℕ)
    → Dict.get h.codes dc ≡ none
    → poll_look h grant dc now ≢ ready a
gone-answer h grant dc now a g r = cc (g, (look_ready h grant dc now a r).1)

module _ {S : Type 0} (issue : S → String → List String → S × (String × String)) where
  -- Once a poll that issued tokens for a device code has deleted the code, no poll that looks the code
  -- up afterwards gets tokens for it, whatever calls and deletes come in between, unless a new request
  -- is given the same device code. A poll that looked it up before the deletes is not spoken of.
  pub poll-once :
      (fs es : List Event) (dc : String) (a : ℕ) (s : S) (grant access refresh : String) (now : ℕ)
      → All (OtherCode dc) fs
      → (poll_token issue (after (fs ++ finished dc a ∷ es)) s grant dc now).2
        ≢ tokens access refresh
  unfolding poll_token clean_up
  poll-once fs es dc a s grant access refresh now o h =
      let st = after (fs ++ finished dc a ∷ es) in
      let start : Dict.get (after (finished dc a ∷ es)).codes dc ≡ none =
        rw get-remove (rw (eq_refl dc) refl) in
      elim (Look-cases (poll_look st grant dc now)) [
        | inl (text, e) ↦ let wrong : failed text ≡ tokens access refresh = rw e at h in cc (wrong)
        | inr (b, e) ↦
            gone-answer st grant dc now b (gone-after fs (finished dc a ∷ es) dc o start) e
      ]

  -- Tokens come only from a poll with the grant of the device flow, for the code that the device code
  -- stands for: an earlier request made it, and it has not expired; a user has typed a user code that
  -- stood for that very code and agreed, and none has typed one and denied. The tokens are what the issuer
  -- gives for the client and the scopes of that request.
  pub tokens-Agreed :
      (es : List Event) (s : S) (grant dc access refresh : String) (now : ℕ)
      → (poll_token issue (after es) s grant dc now).2 ≡ tokens access refresh
      → (a : ℕ) × (grant ≡ device_grant)
        × (Dict.get (after es).codes dc ≡ some a)
        × (((after es).object a).device_code ≡ dc)
        × Sometime (MadeAt a ((after es).object a)) es
        × Sometime (AgreedTo a) es
        × (¬ Sometime (DeniedTo a) es)
        × (ltb ((after es).object a).expires_at now ≡ false)
        × ((issue s ((after es).object a).client_id ((after es).object a).scopes).1
            ≡ (access, refresh))
  unfolding poll_token
  tokens-Agreed es s grant dc access refresh now h =
      let st = after es in
      elim (Look-cases (poll_look st grant dc now)) [
        | inl (text, e) ↦
            let wrong : failed text ≡ tokens access refresh = rw e at h in absurd (cc wrong)
        | inr (a, e) ↦
            let (right, there, fresh, fine, agreed) = look_ready st grant dc now a e in
            let i = after-Inv es in
            let (small, named) = i.by_code dc a there in
            let (made, told, calm) = i.explained a small in
            let out = issue s (st.object a).client_id (st.object a).scopes in
            let given : tokens out.1.0 out.1.1 ≡ tokens access refresh = rw e at h in
            (
              a,
              right,
              there,
              named,
              made,
              told agreed,
              calm fine,
              fresh,
              tokens_inj out.1 (access, refresh) given,
            )
      ]
    where
      tokens_inj : (p q : String × String) → tokens p.0 p.1 ≡ tokens q.0 q.1 → p ≡ q
      tokens_inj (a, b) (c, d) p = cc
