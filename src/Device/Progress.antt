-- ===== src/Device/Progress.antt =====
-- internal/device/handler.go: a code that the user agreed to gets its tokens.
use mathlib.Core.Path.{subst}
use oauth4os.Common.{
  ℕ, ◌≤◌, ◌<◌, String, ◌≡◌, ◌≢◌, refl, sym, ap, ◌∙◌, inl, inr, true, false, some, List, [], ◌∷◌,
  ◌++◌, ◌==◌, eq_iff, Bool-cases, Option-cases, ltb, arith, All,
}
use oauth4os.Common.Dict
use oauth4os.Common.Dict.{Dict, get-remove, get-put, get-sweep, unless}
use oauth4os.Device.Handler.{
  Code, Handler, tokens, write, decide, ready, poll_look, device_grant, clean_up, cleanup,
  request_code, approve, poll_token,
}
use oauth4os.Device.Facts.{ready_look}
use oauth4os.Device.History.{
  Event, requested, finished, decided, cleaned, apply, after, after-Inv, nat_eq-cases, write-other,
  write-same,
}

-- The call leaves the code alone: no deletes by a poll of it, no new code of its name, no denial, and no cleanup after it expired.
abbrev pub Apart : String → String → ℕ → Event → Type 0
Apart dc uc exp (requested client_id scope d u now) = d ≢ dc
Apart dc uc exp (finished d a) = d ≢ dc
Apart dc uc exp (decided u action) = u ≡ uc → action ≢ "deny"
Apart dc uc exp (cleaned now) = now ≤ exp

-- The device code points to the object, and a poll in time would issue its tokens.
record Waiting (h : Handler) (dc : String) (a : ℕ) (c : Code) : Type 0 where
  pub there : Dict.get h.codes dc ≡ some a
  pub is : h.object a ≡ c
  pub agreed : c.approved ≡ true
  pub fine : c.denied ≡ false

kept-remove :
    (d : Dict ℕ) (k dc : String) (a : ℕ)
    → k ≢ dc
    → Dict.get d dc ≡ some a
    → Dict.get (Dict.remove d k) dc ≡ some a
kept-remove d k dc a ne h = rw get-remove (ground (arith, h, ne, eq_iff k dc))

agree-again :
    (c : Code) (action : String) → action ≢ "deny" → c.approved ≡ true → decide action c ≡ c
agree-again c action ne h = elim (Bool-cases (action == "deny")) [
  | inl denies ↦ absurd (ne ((eq_iff action "deny").0 denies))
  | inr agrees ↦ rw agrees (ap (λ b. record c { approved = b }) (sym h))
]

decide-Waiting :
    (h : Handler) (dc uc action : String) (a b : ℕ) (c : Code)
    → (c.user_code ≡ uc → action ≢ "deny")
    → ((h.object b).user_code ≡ uc)
    → Waiting h dc a c
    → Waiting (record h { object = write h.object b (decide action (h.object b)) }) dc a c
decide-Waiting h dc uc action a b c ap_ named w = record {
  there = w.there;
  is = elim (nat_eq-cases a b) [
    | inl e ↦
        let here : h.object b ≡ c = ap h.object (sym e) ∙ w.is in
        ap (write h.object b _) e
        ∙ write-same h.object b _
        ∙ ap (decide action) here
        ∙ agree-again c action (ap_ (ap (λ x. x.user_code) (sym here) ∙ named)) w.agreed
    | inr ne ↦ write-other h.object b a _ ne ∙ w.is
  ];
  agreed = w.agreed;
  fine = w.fine;
}

finish-Waiting :
    (h : Handler) (d dc : String) (b a : ℕ) (c : Code)
    → d ≢ dc
    → Waiting h dc a c
    → Waiting (clean_up h d (h.object b)) dc a c
unfolding clean_up
finish-Waiting h d dc b a c ne w = record {
  there = kept-remove h.codes d dc a ne w.there;
  is = w.is;
  agreed = w.agreed;
  fine = w.fine;
}

request-Waiting :
    (h : Handler) (client_id scope d u dc : String) (now a : ℕ) (c : Code)
    → d ≢ dc
    → a < h.next
    → Waiting h dc a c
    → Waiting (request_code h client_id scope d u now).0 dc a c
unfolding request_code
request-Waiting h client_id scope d u dc now a c ne small w = elim (Bool-cases (client_id == "")) [
  | inl blank ↦ rw (blank, request_code) w
  | inr given ↦
      rw (given, request_code)
        (record {
          there = rw get-put (ground (arith, w.there, ne, eq_iff d dc));
          is = write-other h.object h.next a _ (λ e. omega (arith, small, e)) ∙ w.is;
          agreed = w.agreed;
          fine = w.fine;
        })
]

apply-Waiting :
    (es : List Event) (dc : String) (a : ℕ) (c : Code) (e : Event)
    → Apart dc c.user_code c.expires_at e
    → Waiting (after es) dc a c
    → Waiting (apply (after es) e) dc a c
unfolding approve cleanup
apply-Waiting es dc a c (requested client_id scope d u now) o w =
    request-Waiting (after es) client_id scope d u dc now a c o
      ((after-Inv es).by_code dc a w.there).0 w
apply-Waiting es dc a c (finished d b) o w = finish-Waiting (after es) d dc b a c o w
apply-Waiting es dc a c (decided u action) o w =
    elim (Option-cases (Dict.get (after es).by_user u)) [
      | inl lost ↦ rw (lost, approve, apply) w
      | inr (b, there) ↦
          rw (there, approve, apply)
            (decide-Waiting (after es) dc u action a b c (λ e. o (sym e))
              ((after-Inv es).by_name u b there).1 w)
    ]
apply-Waiting es dc a c (cleaned now) o w = record {
  there =
      rw get-sweep
        (rw w.there (rw (ap (λ x. ltb x.expires_at now) w.is ∙ in_time c.expires_at now o) refl));
  is = w.is;
  agreed = w.agreed;
  fine = w.fine;
}
  where
    in_time : (e t : ℕ) → t ≤ e → ltb e t ≡ false
    in_time e t h = ground arith

after-Waiting :
    (fs es : List Event) (dc : String) (a : ℕ) (c : Code)
    → All (Apart dc c.user_code c.expires_at) fs
    → Waiting (after es) dc a c
    → Waiting (after (fs ++ es)) dc a c
after-Waiting [] es dc a c o w = w
after-Waiting (f ∷ fs) es dc a c o w =
    apply-Waiting (fs ++ es) dc a c f o.0 (after-Waiting fs es dc a c o.1 w)

approve-Waiting :
    (es : List Event) (dc uc action : String) (a : ℕ)
    → Dict.get (after es).codes dc ≡ some a
    → Dict.get (after es).by_user uc ≡ some a
    → ((after es).object a).denied ≡ false
    → action ≢ "deny"
    → Waiting
        (after (decided uc action ∷ es))
        dc
        a
        (record ((after es).object a) { approved = true })
unfolding approve
approve-Waiting es dc uc action a there named fine ne =
    rw (named, approve, apply)
      (record {
        there = there;
        is = write-same (after es).object a _ ∙ agreeing ((after es).object a);
        agreed = refl;
        fine = fine;
      })
  where
    agreeing : (c : Code) → decide action c ≡ record c { approved = true }
    agreeing c = elim (Bool-cases (action == "deny")) [
      | inl denies ↦ absurd (ne ((eq_iff action "deny").0 denies))
      | inr agrees ↦ rw agrees refl
    ]

-- When a user agrees to a code that is known and that none has denied, the device gets the tokens of
-- its client and scopes by a poll before the code expires, whatever else happens in between, except the
-- deletes of another poll of the code, a request that is given the same device code, a denial of its user code, and a
-- cleanup after it expired.
pub poll-gets_tokens :
    {S : Type 0} (issue : S → String → List String → S × (String × String)) (fs es : List Event)
    (s : S) (dc uc action : String) (a now : ℕ)
    → Dict.get (after es).codes dc ≡ some a
    → Dict.get (after es).by_user uc ≡ some a
    → ((after es).object a).denied ≡ false
    → action ≢ "deny"
    → All (Apart dc uc ((after es).object a).expires_at) fs
    → now ≤ ((after es).object a).expires_at
    → (poll_token issue (after (fs ++ decided uc action ∷ es)) s device_grant dc now).2
      ≡ let out = issue s ((after es).object a).client_id ((after es).object a).scopes in
        tokens out.1.0 out.1.1
unfolding poll_token
poll-gets_tokens issue fs es s dc uc action a now there named fine ne o time =
    let c = (after es).object a in
    let uc_is : c.user_code ≡ uc = ((after-Inv es).by_name uc a named).1 in
    let w =
      after-Waiting fs (decided uc action ∷ es) dc a (record c { approved = true })
        (subst (λ u. All (Apart dc u c.expires_at) fs) (sym uc_is) o)
        (approve-Waiting es dc uc action a there named fine ne) in
    let h = after (fs ++ decided uc action ∷ es) in
    let same = w.is in
    let here : poll_look h device_grant dc now ≡ ready a =
      ready_look h dc now a w.there (rw same (ground (arith, time))) (rw same fine)
        (rw same refl) in
    rw (here, poll_token) (rw same refl)
