-- ===== src/Idempotency/Replay.antt =====
-- internal/idempotency/store.go: a key is answered once in its time.
use oauth4os.Common.{
  ℕ, ◌+◌, ◌<◌, String, ◌≡◌, refl, ap, ◌∙◌, inl, inr, true, false, some, List, [], ◌∷◌, ◌==◌, eq_iff,
  eq_refl, Bool-cases, Option-cases, ltb, arith, All,
}
use oauth4os.Common.Dict
use oauth4os.Common.Dict.{Dict, get-put, get-sweep}
use oauth4os.Idempotency.Store.{
  Request, Response, Entry, Store, fresh, replayed, stored, marked, applies_to, live, serve, reap,
}

-- A request, or a tick of the reaper, at its time.
pub data Call (R : Type 0) : Type 0 where
  requests : Request R → ℕ → Call R
  ticks : ℕ → Call R

abbrev pub time_of : {R : Type 0} → Call R → ℕ
time_of (requests r now) = now
time_of (ticks now) = now

module _ {H R : Type 0} (next : H → Request R → H × Response) where
  abbrev pub step : Store × H → Call R → Store × H
  step (s, h) (requests r now) = let (s', h', answer) = serve next s h r now in (s', h')
  step (s, h) (ticks now) = (reap s now, h)

  abbrev pub run : Store × H → List (Call R) → Store × H
  run sh [] = sh
  run sh (c ∷ cs) = run (step sh c) cs

  serve-kept :
      (s : Store) (h : H) (r : Request R) (now : ℕ) (key : String) (e : Entry)
      → now < e.expires
      → Dict.get s.entries key ≡ some e
      → Dict.get (serve next s h r now).0.entries key ≡ some e
  unfolding serve
  serve-kept s h r now key e time there = elim (Bool-cases (applies_to r.method)) [
    | inr reads ↦ rw (reads, serve) there
    | inl writes ↦ elim (Bool-cases (r.idempotency_key == "")) [
      | inl bare ↦ rw (writes, serve) (rw bare there)
      | inr keyed ↦ elim (Option-cases (live now (Dict.get s.entries r.idempotency_key))) [
        | inr (old, stood) ↦ rw (writes, serve) (rw (keyed, stood) there)
        | inl lost ↦
            rw (writes, serve)
              (rw (keyed, lost)
                (get-put s.entries r.idempotency_key key _
                  ∙ ground (arith, there, time, lost, eq_iff r.idempotency_key key)))
      ]
    ]
  ]

  step-kept :
      (s : Store) (h : H) (c : Call R) (key : String) (e : Entry)
      → time_of c < e.expires
      → Dict.get s.entries key ≡ some e
      → Dict.get (step (s, h) c).0.entries key ≡ some e
  unfolding reap
  step-kept s h (requests r now) key e time there = serve-kept s h r now key e time there
  step-kept s h (ticks now) key e time there = rw get-sweep (rw there (ground (arith, time)))

  run-kept :
      (cs : List (Call R)) (sh : Store × H) (key : String) (e : Entry)
      → All (λ c. time_of c < e.expires) cs
      → Dict.get sh.0.entries key ≡ some e
      → Dict.get (run sh cs).0.entries key ≡ some e
  run-kept [] sh key e times there = there
  run-kept (c ∷ cs) sh key e times there =
      run-kept cs (step sh c) key e times.1 (step-kept sh.0 sh.1 c key e times.0 there)

  serve-first :
      (s : Store) (h : H) (r : Request R) (now : ℕ) (resp : Response)
      → applies_to r.method ≡ true
      → (r.idempotency_key == "") ≡ false
      → (serve next s h r now).2 ≡ fresh resp
      → Dict.get (serve next s h r now).0.entries r.idempotency_key
        ≡ some (record { response = stored resp; expires = now + s.ttl })
  unfolding serve
  serve-first s h r now resp writes keyed first =
      elim (Option-cases (live now (Dict.get s.entries r.idempotency_key))) [
        | inr (old, stood) ↦ absurd (cc (rw stood at (rw keyed at (rw (writes, serve) at first))))
        | inl lost ↦
            let is : (next h r).1 ≡ resp =
              fresh_inj _ _ (rw lost at (rw keyed at (rw (writes, serve) at first))) in
            rw (writes, serve)
              (rw (keyed, lost)
                (get-put s.entries r.idempotency_key r.idempotency_key _
                  ∙ rw (eq_refl r.idempotency_key) (rw is refl)))
      ]
    where
      fresh_inj : (a b : Response) → fresh a ≡ fresh b → a ≡ b
      fresh_inj a b p = cc

  -- While the time of a key runs, every POST, PUT or PATCH with the key is answered with the status and
  -- the body of the first, of its headers with Content-Type only, and with X-Idempotent-Replay, and does
  -- not reach the handler, whatever else it asks for and whoever sends it, and whatever requests with
  -- this or other keys, of whatever method, are handled in between, one after the other.
  pub serve-replayed :
      (s : Store) (h : H) (r again : Request R) (cs : List (Call R)) (now later : ℕ)
      (resp : Response)
      → applies_to r.method ≡ true
      → applies_to again.method ≡ true
      → (r.idempotency_key == "") ≡ false
      → again.idempotency_key ≡ r.idempotency_key
      → (serve next s h r now).2 ≡ fresh resp
      → All (λ c. time_of c < now + s.ttl) cs
      → later < now + s.ttl
      → let first = serve next s h r now in
        let (s', h') = run (first.0, first.1) cs in
        serve next s' h' again later ≡ (s', h', replayed (marked (stored resp)))
  unfolding serve
  serve-replayed s h r again cs now later resp writes writes' keyed same first times time =
      let first_out = serve next s h r now in
      let there =
        run-kept cs (first_out.0, first_out.1) r.idempotency_key
          (record { response = stored resp; expires = now + s.ttl }) times
          (serve-first s h r now resp writes keyed first) in
      let young : ltb later (now + s.ttl) ≡ true = ground (arith, time) in
      let stood : live later
            (Dict.get (run (first_out.0, first_out.1) cs).0.entries again.idempotency_key)
          ≡ some (stored resp) =
        ap (λ k. live later (Dict.get (run (first_out.0, first_out.1) cs).0.entries k)) same
        ∙ ap (live later) there
        ∙ rw young refl in
      rw (writes', serve) (rw (ap (λ k. k == "") same ∙ keyed) (rw stood refl))
