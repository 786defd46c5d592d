-- ===== src/Device/Facts.antt =====
-- internal/device/handler.go: what the operations do to a code that stands in the maps.
use oauth4os.Common.{
  ℕ, String, ◌≡◌, ◌⊎◌, refl, sym, ap, ◌∙◌, inl, inr, Bool, true, false, some, List, [], ◌∷◌, ◌==◌,
  eq_iff, Bool-cases, Option-cases, eq_of_some-eq, ltb, arith,
}
use oauth4os.Common.Dict
use oauth4os.Common.Dict.{Dict, get-put, get-remove, get-sweep, get-empty, unless}
use oauth4os.Device.Handler.{Handler, ready, poll_look, device_grant, drop_users, expired}

-- A key of the swept map has the entry it had, and that is not expired.
pub sweep-keeps :
    (d : Dict ℕ) (p : ℕ → Bool) (k : String) (a : ℕ)
    → Dict.get (Dict.sweep d p) k ≡ some a
    → (Dict.get d k ≡ some a) × (p a ≡ false)
sweep-keeps d p k a h =
    let e : unless p (Dict.get d k) ≡ some a = sym (get-sweep d k p) ∙ h in
    elim (Option-cases (Dict.get d k)) [
      | inl lost ↦ absurd (ground arith)
      | inr (b, there) ↦ elim (Bool-cases (p b)) [
        | inl gone ↦ absurd (ground arith)
        | inr stays ↦
            let same : b ≡ a = eq_of_some-eq b a (ground arith) in
            (there ∙ ap some same, sym (ap p same) ∙ stays)
      ]
    ]

pub remove-keeps :
    (d : Dict ℕ) (k other : String) (a : ℕ)
    → Dict.get (Dict.remove d k) other ≡ some a
    → Dict.get d other ≡ some a
remove-keeps d k other a h = ground (arith, get-remove d k other)

pub put-keeps :
    (d : Dict ℕ) (k other : String) (v a : ℕ)
    → Dict.get (Dict.put d k v) other ≡ some a
    → ((k ≡ other) × (v ≡ a)) ⊎ (Dict.get d other ≡ some a)
put-keeps d k other v a h = elim (Bool-cases (k == other)) [
  | inl hit ↦ inl ((eq_iff k other).0 hit, eq_of_some-eq v a (ground (arith, get-put d k other v)))
  | inr miss ↦ inr (ground (arith, get-put d k other v))
]

-- Every entry of the map of user codes that is left was there before.
pub drop_users-keeps :
    (h : Handler) (now : ℕ) (r : List (String × ℕ)) (users : Dict ℕ) (uc : String) (a : ℕ)
    → Dict.get (drop_users h now r users) uc ≡ some a
    → Dict.get users uc ≡ some a
drop_users-keeps h now [] users uc a e = e
drop_users-keeps h now ((dc, b) ∷ r) users uc a e =
    let rest = drop_users-keeps h now r _ uc a e in
    elim (Bool-cases (expired h now b)) [
      | inl old ↦ remove-keeps users (h.object b).user_code uc a (rw old at rest)
      | inr fresh ↦ rw fresh at rest
    ]

-- A poll is about to issue only for a code that is known, in time, approved and not denied.
pub look_ready :
    (h : Handler) (grant dc : String) (now a : ℕ)
    → poll_look h grant dc now ≡ ready a
    → (grant ≡ device_grant)
      × (Dict.get h.codes dc ≡ some a)
      × (ltb (h.object a).expires_at now ≡ false)
      × ((h.object a).denied ≡ false)
      × ((h.object a).approved ≡ true)
unfolding poll_look
look_ready h grant dc now a e = elim (Bool-cases (grant == device_grant)) [
  | inr wrong ↦ absurd (ground arith)
  | inl right ↦ elim (Option-cases (Dict.get h.codes dc)) [
    | inl lost ↦ absurd (ground arith)
    | inr (b, there) ↦ elim (Bool-cases (ltb (h.object b).expires_at now)) [
      | inl old ↦ absurd (ground arith)
      | inr fresh ↦ elim (Bool-cases (h.object b).denied) [
        | inl stop ↦ absurd (ground arith)
        | inr fine ↦ elim (Bool-cases (h.object b).approved) [
          | inr waits ↦ absurd (ground arith)
          | inl agreed ↦
              let same : b ≡ a = ready_inj b a (ground arith) in
              (
                (eq_iff grant device_grant).0 right,
                there ∙ ap some same,
                rw same at fresh,
                rw same at fine,
                rw same at agreed,
              )
        ]
      ]
    ]
  ]
]
  where
    ready_inj : (b a : ℕ) → ready b ≡ ready a → b ≡ a
    ready_inj b a p = cc

-- The converse.
pub ready_look :
    (h : Handler) (dc : String) (now a : ℕ)
    → Dict.get h.codes dc ≡ some a
    → ltb (h.object a).expires_at now ≡ false
    → (h.object a).denied ≡ false
    → (h.object a).approved ≡ true
    → poll_look h device_grant dc now ≡ ready a
unfolding poll_look
ready_look h dc now a there fresh fine agreed = rw there (rw (fresh, fine, agreed) refl)
