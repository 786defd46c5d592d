-- ===== src/Par/Once.antt =====
-- internal/par/handler.go: a pushed request is found once, and unchanged.
use oauth4os.Common.{
  ℕ, ◌+◌, ◌≤◌, String, ◌≡◌, ◌≢◌, refl, ◌∙◌, inl, inr, Bool, false, Option, none, some, List, [],
  ◌∷◌, ◌==◌, eq_iff, eq_refl, Bool-cases, Option-cases, ltb, arith, All,
}
use oauth4os.Common.Dict
use oauth4os.Common.Dict.{Dict, get-put, get-remove, get-sweep, unless}
use oauth4os.Par.Handler.{
  Form, Request, Handler, created, credentials, minute, request_uri, request_of, refused, push,
  resolve, cleanup,
}

-- A call between a push and its use.
pub data Call : Type 0 where
  pushes : Form → String → ℕ → Call
  resolves : String → ℕ → Call
  cleans : ℕ → Call

module _ (auth_client : Option (String → String → Bool)) where
  abbrev pub step : Handler → Call → Handler
  step h (pushes f random now) = (push auth_client h f random now).0
  step h (resolves uri now) = (resolve h uri now).0
  step h (cleans now) = cleanup h now

  abbrev pub run : Handler → List Call → Handler
  run h [] = h
  run h (c ∷ cs) = run (step h c) cs

  -- The call does not concern the URI: it pushes and asks for another one, and does not clean after
  -- the time at which the request is used.
  abbrev pub Apart : String → ℕ → Call → Type 0
  Apart uri until (pushes f random now) = request_uri random ≢ uri
  Apart uri until (resolves other now) = other ≢ uri
  Apart uri until (cleans now) = now ≤ until

  pushed-kept :
      (h : Handler) (f : Form) (random uri : String) (now : ℕ) (o : Option Request)
      → request_uri random ≢ uri
      → Dict.get h.requests uri ≡ o
      → Dict.get (push auth_client h f random now).0.requests uri ≡ o
  unfolding push
  pushed-kept h f random uri now o ne there =
      let (id, secret) = credentials f in
      elim (Bool-cases (id == "")) [
        | inl blank ↦ rw (blank, push) there
        | inr given ↦ elim (Bool-cases (refused auth_client id secret)) [
          | inl stop ↦ rw (given, push) (rw stop there)
          | inr fine ↦
              rw (given, push)
                (rw fine (rw get-put (ground (arith, there, ne, eq_iff (request_uri random) uri))))
        ]
      ]

  resolved-kept :
      (h : Handler) (other uri : String) (now : ℕ) (o : Option Request)
      → other ≢ uri
      → Dict.get h.requests uri ≡ o
      → Dict.get (resolve h other now).0.requests uri ≡ o
  unfolding resolve
  resolved-kept h other uri now o ne there = elim (Option-cases (Dict.get h.requests other)) [
    | inl lost ↦ rw (lost, resolve) there
    | inr (r, stood) ↦
        rw (stood, resolve) (rw get-remove (ground (arith, there, ne, eq_iff other uri)))
  ]

  step-kept :
      (h : Handler) (c : Call) (uri : String) (r : Request)
      → Apart uri r.expires_at c
      → Dict.get h.requests uri ≡ some r
      → Dict.get (step h c).requests uri ≡ some r
  unfolding cleanup
  step-kept h (pushes f random now) uri r a there = pushed-kept h f random uri now (some r) a there
  step-kept h (resolves other now) uri r a there = resolved-kept h other uri now (some r) a there
  step-kept h (cleans now) uri r a there = rw get-sweep (rw there (ground (arith, a)))

  run-kept :
      (cs : List Call) (h : Handler) (uri : String) (r : Request)
      → All (Apart uri r.expires_at) cs
      → Dict.get h.requests uri ≡ some r
      → Dict.get (run h cs).requests uri ≡ some r
  run-kept [] h uri r a there = there
  run-kept (c ∷ cs) h uri r a there =
      run-kept cs (step h c) uri r a.1 (step-kept h c uri r a.0 there)

  -- A request that was pushed is given, as it was pushed, to the first that asks for its URI within a
  -- minute, whatever other requests are pushed, used and cleaned up before; who asks again gets none.
  pub resolve-push :
      (h : Handler) (cs : List Call) (f : Form) (random uri : String) (start now again : ℕ)
      → (push auth_client h f random start).1 ≡ created uri
      → All (Apart uri (start + minute)) cs
      → now ≤ start + minute
      → let found = resolve (run (push auth_client h f random start).0 cs) uri now in
        (found.1 ≡ some (request_of f (credentials f).0 start))
        × ((resolve found.0 uri again).1 ≡ none)
  unfolding push resolve
  resolve-push h cs f random uri start now again e apart time =
      let (id, secret) = credentials f in
      let r = request_of f id start in
      elim (Bool-cases (id == "")) [
        | inl blank ↦ absurd (cc (rw (blank, push) at e))
        | inr given ↦ elim (Bool-cases (refused auth_client id secret)) [
          | inl stop ↦ absurd (cc (rw stop at (rw (given, push) at e)))
          | inr fine ↦
              let is : request_uri random ≡ uri =
                created_inj _ _ (rw fine at (rw (given, push) at e)) in
              let start_there : Dict.get (push auth_client h f random start).0.requests uri
                  ≡ some r =
                rw (given, push)
                  (rw fine (
                    get-put h.requests (request_uri random) uri r
                    ∙ rw is (rw (eq_refl uri) refl))) in
              let there =
                run-kept cs (push auth_client h f random start).0 uri r apart start_there in
              let fresh : ltb (start + minute) now ≡ false = ground (arith, time) in
              (
                rw (there, resolve) (rw fresh refl),
                rw (there, resolve)
                    (rw (gone (run (push auth_client h f random start).0 cs).requests, resolve)
                      refl),
              )
        ]
      ]
    where
      gone : (d : Dict Request) → Dict.get (Dict.remove d uri) uri ≡ none
      gone d = rw get-remove (rw (eq_refl uri) refl)

      created_inj : (a b : String) → created a ≡ created b → a ≡ b
      created_inj a b p = cc

-- A push without a secret is accepted for every client id, whatever the authentication of clients says.
pub push-without_secret :
    (auth_client : Option (String → String → Bool)) (h : Handler) (f : Form) (random : String)
    (now : ℕ)
    → ((credentials f).0 == "") ≡ false
    → (credentials f).1 ≡ ""
    → (push auth_client h f random now).1 ≡ created (request_uri random)
unfolding push
push-without_secret auth_client h f random now given bare =
    rw (given, push) (rw (accepted auth_client) refl)
  where
    accepted :
        (a : Option (String → String → Bool))
        → refused a (credentials f).0 (credentials f).1 ≡ false
    accepted none = refl
    accepted (some authenticates) = rw bare refl
