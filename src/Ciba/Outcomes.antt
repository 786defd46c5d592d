-- ===== src/Ciba/Outcomes.antt =====
-- internal/ciba/handler.go: who gets tokens, and how often.
use oauth4os.Common.{
  ℕ, ◌+◌, ◌≤◌, String, ◌≡◌, ◌≢◌, ◌⊎◌, refl, sym, ap, ◌∙◌, inl, inr, true, false, ◌||◌, none, some,
  List, [], ◌∷◌, ◌++◌, ◌==◌, eq_iff, eq_refl, Bool-cases, Option-cases, ltb, arith, Any, All,
}
use oauth4os.Common.Dict
use oauth4os.Common.Dict.{Dict, get-put, get-remove, get-adjust, map_option}
use oauth4os.Ciba.Handler.{
  AuthRequest, Handler, Look, answer, ready, failed, tokens, new_request, initiate, poll_look,
  decide, approve, poll, five_minutes, split_scope,
}
use oauth4os.Ciba.History.{
  Event, initiated, polled, decided, apply, after, Starts, Agreed, Denied, Story, after-Inv,
}

Look-cases :
    (l : Look) → ((c : ℕ) × (t : String) × (l ≡ answer c t)) ⊎ ((r : AuthRequest) × (l ≡ ready r))
Look-cases (answer c t) = inl (c, t, refl)
Look-cases (ready r) = inr (r, refl)

ready_inj : (a b : AuthRequest) → ready a ≡ ready b → a ≡ b
ready_inj a b p = cc

-- A poll issues for a stored request that is in time, not denied and approved, and removes it.
look_ready :
    (h : Handler) (id : String) (now : ℕ) (r : AuthRequest)
    → (poll_look h id now).1 ≡ ready r
    → (Dict.get h.requests id ≡ some r)
      × (ltb r.expires_at now ≡ false)
      × (r.denied ≡ false)
      × (r.approved ≡ true)
      × ((poll_look h id now).0.requests ≡ Dict.remove h.requests id)
unfolding poll_look
look_ready h id now r e = elim (Option-cases (Dict.get h.requests id)) [
  | inl lost ↦ absurd (cc (rw (lost, poll_look) at e))
  | inr (q, there) ↦
      let at_q = rw (there, poll_look) at e in
      elim (Bool-cases (ltb q.expires_at now)) [
        | inl old ↦ absurd (cc (rw old at at_q))
        | inr fresh ↦ elim (Bool-cases q.denied) [
          | inl stop ↦ absurd (cc (rw (fresh, stop) at at_q))
          | inr fine ↦ elim (Bool-cases q.approved) [
            | inr waits ↦ absurd (cc (rw (fresh, fine, waits) at at_q))
            | inl agreed ↦
                let whole : (poll_look h id now).1 ≡ ready q =
                  rw (there, poll_look) (rw (fresh, fine, agreed) refl) in
                let same : q ≡ r = ready_inj q r (sym whole ∙ e) in
                (
                  there ∙ ap some same,
                  rw same at fresh,
                  rw same at fine,
                  rw same at agreed,
                  rw (there, poll_look) (rw (fresh, fine, agreed) refl),
                )
          ]
        ]
      ]
]

gone-poll :
    (h : Handler) (k id : String) (now : ℕ)
    → Dict.get h.requests id ≡ none
    → Dict.get (poll_look h k now).0.requests id ≡ none
unfolding poll_look
gone-poll h k id now g = elim (Option-cases (Dict.get h.requests k)) [
  | inl lost ↦ rw (lost, poll_look) g
  | inr (r, there) ↦ elim (Bool-cases (ltb r.expires_at now)) [
    | inl old ↦ rw (there, poll_look) (rw old g)
    | inr fresh ↦ elim (Bool-cases r.denied) [
      | inl stop ↦ rw (there, poll_look) (rw (fresh, stop) (gone g))
      | inr fine ↦ elim (Bool-cases r.approved) [
        | inl agreed ↦ rw (there, poll_look) (rw (fresh, fine, agreed) (gone g))
        | inr waits ↦ rw (there, poll_look) (rw (fresh, fine, waits) g)
      ]
    ]
  ]
]
  where
    gone : Dict.get h.requests id ≡ none → Dict.get (Dict.remove h.requests k) id ≡ none
    gone g = rw get-remove (ground (arith, g))

gone-apply :
    (h : Handler) (id : String) (e : Event)
    → ¬ Starts id e
    → Dict.get h.requests id ≡ none
    → Dict.get (apply h e).requests id ≡ none
unfolding initiate approve
gone-apply h id (initiated client_id login_hint scope i now) o g =
    elim (Bool-cases (client_id == "" || login_hint == "")) [
      | inl blank ↦ rw (blank, initiate, apply) g
      | inr given ↦
          let other : i ≢ id = λ e. o (e, given) in
          rw (given, initiate, apply) (rw get-put (ground (arith, g, other, eq_iff i id)))
    ]
gone-apply h id (polled i now) o g = gone-poll h i id now g
gone-apply h id (decided i action) o g = rw get-adjust (ground (arith, g))

gone-after :
    (fs es : List Event) (id : String)
    → All (λ e. ¬ Starts id e) fs
    → Dict.get (after es).requests id ≡ none
    → Dict.get (after (fs ++ es)).requests id ≡ none
gone-after [] es id o g = g
gone-after (f ∷ fs) es id o g = gone-apply (after (fs ++ es)) id f o.0 (gone-after fs es id o.1 g)

module _ {S : Type 0} (issue : S → String → List String → S × (String × String)) where
  -- Tokens come only from a poll for a stored request that is in time: some call started it, no other
  -- has started one of the same id since, and since that call some call with the id has approved and
  -- none has denied. They are what the issuer gives for the client and the scopes of that call, and no
  -- later poll of the id issues any, whatever happens, unless a call starts a request of the same id.
  pub tokens-Approved :
      (fs es : List Event) (s : S) (id access refresh : String) (now again : ℕ) (q : AuthRequest)
      → (poll issue (after es) s id now).2 ≡ tokens access refresh
      → All (λ e. ¬ Starts id e) fs
      → (r : AuthRequest) × (Dict.get (after es).requests id ≡ some r)
        × (story : Story es id r) × Any (Agreed id) story.since
        × All (λ e. ¬ Denied id e) story.since
        × (ltb r.expires_at now ≡ false)
        × ((issue s r.client_id r.scopes).1 ≡ (access, refresh))
        × ((poll_look (after (fs ++ polled id now ∷ es)) id again).1 ≢ ready q)
  unfolding poll
  tokens-Approved fs es s id access refresh now again q h o =
      elim (Look-cases (poll_look (after es) id now).1) [
        | inl (c, t, e) ↦
            let wrong : failed c t ≡ tokens access refresh = rw e at h in absurd (cc wrong)
        | inr (r, e) ↦
            let (there, fresh, fine, agreed, removed) = look_ready (after es) id now r e in
            let story = after-Inv es id r there in
            let out = issue s r.client_id r.scopes in
            let given : tokens out.1.0 out.1.1 ≡ tokens access refresh = rw e at h in
            let gone : Dict.get (after (polled id now ∷ es)).requests id ≡ none =
              ap (λ d. Dict.get d id) removed
              ∙ get-remove (after es).requests id id
              ∙ rw (eq_refl id) refl in
            (
              r,
              there,
              story,
              story.agreed agreed,
              story.undenied fine,
              fresh,
              tokens_inj out.1 (access, refresh) given,
              λ p. cc (
                (look_ready (after (fs ++ polled id now ∷ es)) id again q p).0,
                gone-after fs (polled id now ∷ es) id o gone,
              ),
            )
      ]
    where
      tokens_inj : (p q : String × String) → tokens p.0 p.1 ≡ tokens q.0 q.1 → p ≡ q
      tokens_inj (a, b) (c, d) p = cc

-- A client that starts a request can approve it itself with the id of the answer, and the poll that
-- follows in time gets tokens for the client and all the scopes that it asked for: no user takes part.
pub self_approved :
    {S : Type 0} (issue : S → String → List String → S × (String × String)) (h : Handler) (s : S)
    (client_id login_hint scope id action : String) (start now : ℕ)
    → (client_id == "") ≡ false
    → (login_hint == "") ≡ false
    → (action == "deny") ≡ false
    → now ≤ start + five_minutes
    → let started = (initiate h client_id login_hint scope id start).0 in
      (poll issue (approve started id action).0 s id now).2
      ≡ let out = issue s client_id (split_scope scope) in tokens out.1.0 out.1.1
unfolding poll poll_look approve initiate
self_approved issue h s client_id login_hint scope id action start now c l a time =
    let new = new_request client_id login_hint scope id start in
    let there : Dict.get (Dict.adjust (Dict.put h.requests id new) id (decide action)) id
        ≡ some (record new { approved = true }) =
      rw get-adjust (rw (eq_refl id) (rw get-put (rw (eq_refl id) (rw a refl)))) in
    let fresh : ltb (start + five_minutes) now ≡ false = ground (arith, time) in
    rw (c, l, initiate) (rw (there, poll_look, approve) (rw fresh refl))
