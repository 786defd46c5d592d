-- ===== src/Ciba/History.antt =====
-- internal/ciba/handler.go: histories of calls, and what a stored request says of them.
use oauth4os.Common.{
  ℕ, String, ◌≡◌, ◌≢◌, refl, sym, ap, ◌∙◌, inl, inr, true, ◌||◌, some, List, [], ◌∷◌, ◌==◌, eq_iff,
  Bool-cases, Option-cases, eq_of_some-eq, ltb, arith, Any, All, ◌++◌, false,
}
use mathlib.Core.Path.{subst}
use oauth4os.Common.Dict
use oauth4os.Common.Dict.{Dict, get-put, get-remove, get-adjust, get-empty, map_option}
use oauth4os.Ciba.Handler.{
  AuthRequest, Handler, new_handler, new_request, initiate, poll_look, decide, approve,
}

pub data Event : Type 0 where
  initiated : String → String → String → String → ℕ → Event
  polled : String → ℕ → Event
  decided : String → String → Event

abbrev pub apply : Handler → Event → Handler
apply h (initiated client_id login_hint scope id now) =
    (initiate h client_id login_hint scope id now).0
apply h (polled id now) = (poll_look h id now).0
apply h (decided id action) = (approve h id action).0

-- The calls so far, the last one first.
abbrev pub after : List Event → Handler
after [] = new_handler
after (e ∷ es) = apply (after es) e

-- The call starts a request of the id.
abbrev pub Starts : String → Event → Type 0
Starts id (initiated client_id login_hint scope i now) =
    (i ≡ id) × ((client_id == "" || login_hint == "") ≡ false)
Starts id (polled i now) = ⊥
Starts id (decided i action) = ⊥

-- A call with the id agrees, or denies.
abbrev pub Agreed : String → Event → Type 0
Agreed id (initiated client_id login_hint scope i now) = ⊥
Agreed id (polled i now) = ⊥
Agreed id (decided i action) = (i ≡ id) × (action ≢ "deny")

abbrev pub Denied : String → Event → Type 0
Denied id (initiated client_id login_hint scope i now) = ⊥
Denied id (polled i now) = ⊥
Denied id (decided i action) = (i ≡ id) × (action ≡ "deny")

-- The call that made a request, and the decisions since then: the request is what that call made, but
-- for the decision, and no later call started another of the same id.
pub record Story (es : List Event) (id : String) (q : AuthRequest) : Type 0 where
  pub since : List Event
  pub earlier : List Event
  pub client_id : String
  pub login_hint : String
  pub scope : String
  pub time : ℕ
  pub parts : es ≡ since ++ initiated client_id login_hint scope id time ∷ earlier
  pub given : (client_id == "" || login_hint == "") ≡ false
  pub made : q ≡ record (new_request client_id login_hint scope id time) {
    approved = q.approved;
    denied = q.denied;
  }
  pub alone : All (λ e. ¬ Starts id e) since
  pub agreed : q.approved ≡ true → Any (Agreed id) since
  pub undenied : q.denied ≡ false → All (λ e. ¬ Denied id e) since

-- What every stored request says.
abbrev pub Inv : List Event → Handler → Type 0
Inv es h = (id : String) (r : AuthRequest) → Dict.get h.requests id ≡ some r → Story es id r

-- A call that neither starts a request of the id nor decides one leaves its story as it is.
later :
    (es : List Event) (e : Event) (id : String) (r : AuthRequest)
    → ¬ Starts id e
    → ¬ Denied id e
    → Story es id r
    → Story (e ∷ es) id r
later es e id r other calm s = record {
  since = e ∷ s.since;
  earlier = s.earlier;
  client_id = s.client_id;
  login_hint = s.login_hint;
  scope = s.scope;
  time = s.time;
  parts = ap (λ l. e ∷ l) s.parts;
  given = s.given;
  made = s.made;
  alone = (other, s.alone);
  agreed = λ h. inr (s.agreed h);
  undenied = λ h. (calm, s.undenied h);
}

removed-Inv :
    (es : List Event) (h : Handler) (k j : String) (now : ℕ)
    → Inv es h
    → Inv (polled j now ∷ es) (record { requests = Dict.remove h.requests k })
removed-Inv es h k j now i id r there =
    later es (polled j now) id r (λ x. x) (λ x. x)
      (i id r (ground (arith, there, get-remove h.requests k id)))

same-Inv :
    (es : List Event) (h : Handler) (j : String) (now : ℕ) → Inv es h → Inv (polled j now ∷ es) h
same-Inv es h j now i id r there = later es (polled j now) id r (λ x. x) (λ x. x) (i id r there)

poll-Inv :
    (es : List Event) (h : Handler) (k : String) (now : ℕ)
    → Inv es h
    → Inv (polled k now ∷ es) (poll_look h k now).0
unfolding poll_look
poll-Inv es h k now i = elim (Option-cases (Dict.get h.requests k)) [
  | inl lost ↦ rw (lost, poll_look) (same-Inv es h k now i)
  | inr (r, there) ↦ elim (Bool-cases (ltb r.expires_at now)) [
    | inl old ↦ rw (there, poll_look) (rw old (same-Inv es h k now i))
    | inr fresh ↦ elim (Bool-cases r.denied) [
      | inl stop ↦ rw (there, poll_look) (rw (fresh, stop) (removed-Inv es h k k now i))
      | inr fine ↦ elim (Bool-cases r.approved) [
        | inl agreed ↦ rw (there, poll_look) (rw (fresh, fine, agreed) (removed-Inv es h k k now i))
        | inr waits ↦ rw (there, poll_look) (rw (fresh, fine, waits) (same-Inv es h k now i))
      ]
    ]
  ]
]

started :
    (es : List Event) (client_id login_hint scope id : String) (now : ℕ)
    → (client_id == "" || login_hint == "") ≡ false
    → Story
        (initiated client_id login_hint scope id now ∷ es)
        id
        (new_request client_id login_hint scope id now)
started es client_id login_hint scope id now given = record {
  since = [];
  earlier = es;
  client_id = client_id;
  login_hint = login_hint;
  scope = scope;
  time = now;
  parts = refl;
  given = given;
  made = refl;
  alone = tt;
  agreed = λ h. absurd (cc h);
  undenied = λ h. tt;
}

initiate-Inv :
    (es : List Event) (h : Handler) (client_id login_hint scope k : String) (now : ℕ)
    → Inv es h
    → Inv
        (initiated client_id login_hint scope k now ∷ es)
        (initiate h client_id login_hint scope k now).0
unfolding initiate
initiate-Inv es h client_id login_hint scope k now i =
    elim (Bool-cases (client_id == "" || login_hint == "")) [
      | inl blank ↦
          rw (blank, initiate)
            (λ id r there.
              later es (initiated client_id login_hint scope k now) id r (λ x. cc (blank, x.1))
                (λ x. x) (i id r there))
      | inr given ↦
          rw (given, initiate)
            (λ id r there. elim (Bool-cases (k == id)) [
              | inl hit ↦
                  let new = new_request client_id login_hint scope k now in
                  let same : k ≡ id = (eq_iff k id).0 hit in
                  let is : new ≡ r =
                    eq_of_some-eq new r (rw hit at (sym (get-put h.requests k id new) ∙ there)) in
                  subst (λ j. Story (initiated client_id login_hint scope k now ∷ es) j r) same
                    (subst (Story (initiated client_id login_hint scope k now ∷ es) k) is
                      (started es client_id login_hint scope k now given))
              | inr miss ↦
                  later es (initiated client_id login_hint scope k now) id r
                    (λ x. ground (arith, miss, x.0, eq_iff k id)) (λ x. x)
                    (i id r (
                      ground (
                        arith,
                        there,
                        miss,
                        get-put h.requests k id (new_request client_id login_hint scope k now),
                      )))
            ])
    ]

deny : AuthRequest → AuthRequest
deny r = record r { denied = true }

agree : AuthRequest → AuthRequest
agree r = record r { approved = true }

decide-made :
    (q : AuthRequest) (action client_id login_hint scope id : String) (time : ℕ)
    → q ≡ record (new_request client_id login_hint scope id time) {
      approved = q.approved;
      denied = q.denied;
    }
    → decide action q ≡ record (new_request client_id login_hint scope id time) {
      approved = (decide action q).approved;
      denied = (decide action q).denied;
    }
unfolding deny agree
decide-made q action client_id login_hint scope id time e = elim (Bool-cases (action == "deny")) [
  | inl stops ↦ rw stops (ap deny e)
  | inr agrees ↦ rw agrees (ap agree e)
]

decide-Story :
    (es : List Event) (id : String) (r : AuthRequest) (action : String)
    → Story es id r
    → Story (decided id action ∷ es) id (decide action r)
decide-Story es id r action s = record {
  since = decided id action ∷ s.since;
  earlier = s.earlier;
  client_id = s.client_id;
  login_hint = s.login_hint;
  scope = s.scope;
  time = s.time;
  parts = ap (λ l. decided id action ∷ l) s.parts;
  given = s.given;
  made = decide-made r action s.client_id s.login_hint s.scope id s.time s.made;
  alone = ((λ x. x), s.alone);
  agreed = λ h. elim (Bool-cases (action == "deny")) [
    | inl stops ↦ inr (s.agreed (rw stops at h))
    | inr agrees ↦ inl (refl, λ e. ground (arith, eq_iff action "deny"))
  ];
  undenied = λ h. elim (Bool-cases (action == "deny")) [
    | inl stops ↦ absurd (cc (rw stops at h))
    | inr agrees ↦ ((λ x. ground (arith, eq_iff action "deny", x.1)), s.undenied (rw agrees at h))
  ];
}

approve-Inv :
    (es : List Event) (h : Handler) (k action : String)
    → Inv es h
    → Inv (decided k action ∷ es) (approve h k action).0
unfolding approve
approve-Inv es h k action i id r there =
    let read = get-adjust h.requests k id (decide action) in
    elim (Bool-cases (k == id)) [
      | inr miss ↦
          later es (decided k action) id r (λ x. x) (λ x. ground (arith, miss, x.0, eq_iff k id))
            (i id r (ground (arith, miss, there, read)))
      | inl hit ↦
          let same : k ≡ id = (eq_iff k id).0 hit in
          let is : map_option (decide action) (Dict.get h.requests id) ≡ some r =
            sym (read ∙ rw hit refl) ∙ there in
          elim (Option-cases (Dict.get h.requests id)) [
            | inl lost ↦ absurd (cc (rw lost at is))
            | inr (old, stood) ↦
                subst (λ x. Story (decided x action ∷ es) id r) (sym same)
                  (subst (Story (decided id action ∷ es) id)
                    (eq_of_some-eq (decide action old) r (rw stood at is))
                    (decide-Story es id old action (i id old stood)))
          ]
    ]

pub after-Inv : (es : List Event) → Inv es (after es)
unfolding new_handler
after-Inv [] = λ id r there. absurd (cc (there, get-empty {V = AuthRequest} id))
after-Inv (initiated client_id login_hint scope id now ∷ es) =
    initiate-Inv es (after es) client_id login_hint scope id now (after-Inv es)
after-Inv (polled id now ∷ es) = poll-Inv es (after es) id now (after-Inv es)
after-Inv (decided id action ∷ es) = approve-Inv es (after es) id action (after-Inv es)
