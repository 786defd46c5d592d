-- ===== src/Device/History.antt =====
-- internal/device/handler.go: histories of calls, and what a code that stands in the maps says of them.
use oauth4os.Common.{
  ℕ, ◌+◌, ◌<◌, String, ◌≡◌, ◌≢◌, ◌⊎◌, refl, sym, ap, ◌∙◌, inl, inr, true, some, List, [], ◌∷◌, ◌==◌,
  eq_iff, Bool-cases, Option-cases, nat_eq, arith, false, eq_of_some-eq,
}
use mathlib.Core.Path.{subst}
use oauth4os.Common.Dict
use oauth4os.Common.Dict.{Dict, get-empty}
use oauth4os.Device.Handler.{
  Code, Handler, write, decide, expired, clean_up, cleanup, new_handler, new_code, request_code,
  approve,
}
use oauth4os.Device.Facts.{sweep-keeps, remove-keeps, put-keeps, drop_users-keeps}

-- The writes of the calls. A poll that answers without tokens writes nothing; one that issues tokens
-- for the code at an address deletes it later, when its issuer has answered: `finished`.
pub data Event : Type 0 where
  requested : String → String → String → String → ℕ → Event
  finished : String → ℕ → Event
  decided : String → String → Event
  cleaned : ℕ → Event

abbrev pub apply : Handler → Event → Handler
apply h (requested client_id scope dc uc now) = (request_code h client_id scope dc uc now).0
apply h (finished dc a) = clean_up h dc (h.object a)
apply h (decided uc action) = (approve h uc action).0
apply h (cleaned now) = cleanup h now

-- The calls so far, the last one first.
abbrev pub after : List Event → Handler
after [] = new_handler
after (e ∷ es) = apply (after es) e

-- At some call of the history, `P` held of the state before it and the call.
abbrev pub Sometime : (Handler → Event → Type 0) → List Event → Type 0
Sometime P [] = ⊥
Sometime P (e ∷ es) = P (after es) e ⊎ Sometime P es

-- The call made the code at the address, and the code is still that but for the user's decision.
abbrev pub MadeAt : ℕ → Code → Handler → Event → Type 0
MadeAt a c h (requested client_id scope dc uc now) =
    (client_id ≢ "")
    × (h.next ≡ a)
    × (c ≡ record (new_code client_id scope dc uc now) { approved = c.approved; denied = c.denied })
MadeAt a c h (finished dc b) = ⊥
MadeAt a c h (decided uc action) = ⊥
MadeAt a c h (cleaned now) = ⊥

-- A user typed a user code that stood for the code at the address, and agreed, or denied.
abbrev pub AgreedTo : ℕ → Handler → Event → Type 0
AgreedTo a h (requested client_id scope dc uc now) = ⊥
AgreedTo a h (finished dc b) = ⊥
AgreedTo a h (decided uc action) = (Dict.get h.by_user uc ≡ some a) × (action ≢ "deny")
AgreedTo a h (cleaned now) = ⊥

abbrev pub DeniedTo : ℕ → Handler → Event → Type 0
DeniedTo a h (requested client_id scope dc uc now) = ⊥
DeniedTo a h (finished dc b) = ⊥
DeniedTo a h (decided uc action) = (Dict.get h.by_user uc ≡ some a) × (action ≡ "deny")
DeniedTo a h (cleaned now) = ⊥

-- What the history says of the code at an address.
abbrev pub Explained : List Event → ℕ → Code → Type 0
Explained es a c =
    Sometime (MadeAt a c) es
    × (c.approved ≡ true → Sometime (AgreedTo a) es)
    × (c.denied ≡ false → ¬ Sometime (DeniedTo a) es)

-- The maps point to codes that were made, under the names that these have.
pub record Inv (es : List Event) (h : Handler) : Type 0 where
  pub explained : (a : ℕ) → a < h.next → Explained es a (h.object a)
  pub denied_old : (a : ℕ) → Sometime (DeniedTo a) es → a < h.next
  pub by_code :
      (dc : String) (a : ℕ)
      → Dict.get h.codes dc ≡ some a
      → (a < h.next) × ((h.object a).device_code ≡ dc)
  pub by_name :
      (uc : String) (a : ℕ)
      → Dict.get h.by_user uc ≡ some a
      → (a < h.next) × ((h.object a).user_code ≡ uc)

-- The call denies nothing.
abbrev Quiet : List Event → Event → Type 0
Quiet es e = (a : ℕ) → ¬ DeniedTo a (after es) e

later :
    (es : List Event) (e : Event) (a : ℕ) (c : Code)
    → ¬ DeniedTo a (after es) e
    → Explained es a c
    → Explained (e ∷ es) a c
later es e a c calm (made, agreed, kept) =
    (inr made, (λ h. inr (agreed h)), λ h d. elim d [ inl x ↦ calm x | inr x ↦ kept h x ])

-- What holds after fewer entries are left in the maps.
fewer :
    (es : List Event) (e : Event) (h : Handler) (codes by_user : Dict ℕ)
    → Quiet es e
    → ((dc : String) (a : ℕ) → Dict.get codes dc ≡ some a → Dict.get h.codes dc ≡ some a)
    → ((uc : String) (a : ℕ) → Dict.get by_user uc ≡ some a → Dict.get h.by_user uc ≡ some a)
    → Inv es h
    → Inv (e ∷ es) (record h { codes = codes; by_user = by_user })
fewer es e h codes by_user calm cs us i = record {
  explained = λ a small. later es e a (h.object a) (calm a) (i.explained a small);
  denied_old = λ a d. elim d [ inl x ↦ absurd (calm a x) | inr x ↦ i.denied_old a x ];
  by_code = λ dc a there. i.by_code dc a (cs dc a there);
  by_name = λ uc a there. i.by_name uc a (us uc a there);
}

same-Inv : (es : List Event) (e : Event) (h : Handler) → Quiet es e → Inv es h → Inv (e ∷ es) h
same-Inv es e h calm i = fewer es e h h.codes h.by_user calm (λ dc a p. p) (λ uc a p. p) i

finished-Inv :
    (es : List Event) (h : Handler) (dc : String) (b : ℕ) (c : Code)
    → Inv es h
    → Inv (finished dc b ∷ es) (clean_up h dc c)
unfolding clean_up
finished-Inv es h dc b c i =
    fewer es (finished dc b) h _ _ (λ a x. x) (remove-keeps h.codes dc)
      (remove-keeps h.by_user c.user_code) i

cleanup-Inv :
    (es : List Event) (h : Handler) (now : ℕ) → Inv es h → Inv (cleaned now ∷ es) (cleanup h now)
unfolding cleanup
cleanup-Inv es h now i =
    fewer es (cleaned now) h _ _ (λ a x. x)
      (λ dc a p. (sweep-keeps h.codes (expired h now) dc a p).0)
      (drop_users-keeps h now h.codes.range h.by_user) i

pub write-same : (object : ℕ → Code) (a : ℕ) (c : Code) → write object a c a ≡ c
write-same object a c = ground arith

pub write-other : (object : ℕ → Code) (a b : ℕ) (c : Code) → b ≢ a → write object a c b ≡ object b
write-other object a b c ne = ground arith

pub nat_eq-cases : (a b : ℕ) → (a ≡ b) ⊎ (a ≢ b)
nat_eq-cases a b = elim (Bool-cases (nat_eq a b)) [
  | inl e ↦ inl (ground arith)
  | inr e ↦ inr (λ p. ground arith)
]

made-Inv :
    (es : List Event) (h : Handler) (client_id scope dc uc : String) (now : ℕ)
    → client_id ≢ ""
    → (after es).next ≡ h.next
    → Inv es h
    → Inv (requested client_id scope dc uc now ∷ es) (record {
      codes = Dict.put h.codes dc h.next;
      by_user = Dict.put h.by_user uc h.next;
      next = h.next + 1;
      object = write h.object h.next (new_code client_id scope dc uc now);
    })
made-Inv es h client_id scope dc uc now given next_is i = record {
  explained = λ a small. elim (nat_eq-cases a h.next) [
    | inl e ↦
        subst (Explained (requested client_id scope dc uc now ∷ es) a)
          (sym (ap (write h.object h.next _) e ∙ at_new))
          (
            inl (given, next_is ∙ sym e, refl),
            (λ p. absurd (cc p)),
            λ p d. elim d [ inl x ↦ x | inr x ↦ omega (arith, i.denied_old a x, e) ],
          )
    | inr ne ↦ subst (Explained (requested client_id scope dc uc now ∷ es) a) (sym (at_old a ne)) (
        later es (requested client_id scope dc uc now) a (h.object a) (λ x. x)
          (i.explained a (older a small ne)))
  ];
  denied_old = λ a d. elim d [ inl x ↦ absurd x | inr x ↦ omega (arith, i.denied_old a x) ];
  by_code = λ k a p. elim (put-keeps h.codes dc k h.next a p) [
    | inl (k_is, a_is) ↦ rw (sym a_is) (omega arith, rw at_new k_is)
    | inr old ↦
        let (small, named) = i.by_code k a old in
        (omega (arith, small), ap (λ c. c.device_code) (at_old a (below a small)) ∙ named)
  ];
  by_name = λ k a p. elim (put-keeps h.by_user uc k h.next a p) [
    | inl (k_is, a_is) ↦ rw (sym a_is) (omega arith, rw at_new k_is)
    | inr old ↦
        let (small, named) = i.by_name k a old in
        (omega (arith, small), ap (λ c. c.user_code) (at_old a (below a small)) ∙ named)
  ];
}
  where
    at_new :
        write h.object h.next (new_code client_id scope dc uc now) h.next
        ≡ new_code client_id scope dc uc now
    at_new = write-same h.object h.next _

    at_old :
        (a : ℕ)
        → a ≢ h.next
        → write h.object h.next (new_code client_id scope dc uc now) a ≡ h.object a
    at_old a ne = write-other h.object h.next a _ ne

    older : (a : ℕ) → a < h.next + 1 → a ≢ h.next → a < h.next
    older a small ne = ground arith

    below : (a : ℕ) → a < h.next → a ≢ h.next
    below a small e = omega (arith, small, e)

request_code-Inv :
    (es : List Event) (client_id scope dc uc : String) (now : ℕ)
    → Inv es (after es)
    → Inv
        (requested client_id scope dc uc now ∷ es)
        (request_code (after es) client_id scope dc uc now).0
unfolding request_code
request_code-Inv es client_id scope dc uc now i = elim (Bool-cases (client_id == "")) [
  | inl blank ↦ rw (blank, request_code) (same-Inv es _ (after es) (λ a x. x) i)
  | inr given ↦
      rw (given, request_code)
        (made-Inv es (after es) client_id scope dc uc now (λ e. ground (arith, eq_iff client_id ""))
          refl i)
]

Sometime-map :
    {P Q : Handler → Event → Type 0} (es : List Event)
    → ((h : Handler) (e : Event) → P h e → Q h e)
    → Sometime P es
    → Sometime Q es
Sometime-map [] f h = h
Sometime-map (e ∷ es) f (inl h) = inl (f (after es) e h)
Sometime-map (e ∷ es) f (inr h) = inr (Sometime-map es f h)

deny : Code → Code
deny c = record c { denied = true }

agree : Code → Code
agree c = record c { approved = true }

decide-MadeAt :
    (a : ℕ) (c : Code) (action : String) (h : Handler) (e : Event)
    → MadeAt a c h e
    → MadeAt a (decide action c) h e
unfolding deny agree
decide-MadeAt a c action h (requested client_id scope dc uc now) (given, at, e) =
    elim (Bool-cases (action == "deny")) [
      | inl no_ ↦ rw no_ (given, at, ap deny e)
      | inr agrees ↦ rw agrees (given, at, ap agree e)
    ]
decide-MadeAt a c action h (finished dc b) x = x
decide-MadeAt a c action h (decided uc act) x = x
decide-MadeAt a c action h (cleaned now) x = x

decide-Explained :
    (es : List Event) (a : ℕ) (c : Code) (uc action : String)
    → Dict.get (after es).by_user uc ≡ some a
    → Explained es a c
    → Explained (decided uc action ∷ es) a (decide action c)
decide-Explained es a c uc action there (made, agreed, kept) = (
  inr (Sometime-map es (decide-MadeAt a c action) made),
  (λ h. elim (Bool-cases (action == "deny")) [
    | inl stop ↦ inr (agreed (rw stop at h))
    | inr agrees ↦ inl (there, λ e. ground (arith, eq_iff action "deny"))
  ]),
  λ h. elim (Bool-cases (action == "deny")) [
    | inl stop ↦ absurd (cc (rw stop at h))
    | inr agrees ↦ λ d. elim d [
      | inl x ↦ ground (arith, eq_iff action "deny", x.1)
      | inr x ↦ kept (rw agrees at h) x
    ]
  ],
)

decided-Inv :
    (es : List Event) (uc action : String) (a : ℕ)
    → let h = after es in
      Dict.get h.by_user uc ≡ some a
      → Inv es h
      → Inv
          (decided uc action ∷ es)
          (record h { object = write h.object a (decide action (h.object a)) })
decided-Inv es uc action a there i = record {
  explained = λ b small. elim (nat_eq-cases b a) [
    | inl e ↦
        subst
          (λ x. Explained (decided uc action ∷ es) x (write object a (decide action (object a)) x))
          (sym e)
          (subst (Explained (decided uc action ∷ es) a) (sym (write-same object a _)) (
            decide-Explained es a (object a) uc action there
              (i.explained a (i.by_name uc a there).0)))
    | inr ne ↦ subst (Explained (decided uc action ∷ es) b) (sym (write-other object a b _ ne)) (
        later es (decided uc action) b (object b) (λ d. ne (eq_of_some-eq b a (sym d.0 ∙ there)))
          (i.explained b small))
  ];
  denied_old = λ b d. elim d [ inl x ↦ (i.by_name uc b x.0).0 | inr x ↦ i.denied_old b x ];
  by_code = λ k b p. ((i.by_code k b p).0, kept_code b ∙ (i.by_code k b p).1);
  by_name = λ k b p. ((i.by_name k b p).0, kept_name b ∙ (i.by_name k b p).1);
}
  where
    object : ℕ → Code
    object = (after es).object

    kept_code :
        (b : ℕ) → (write object a (decide action (object a)) b).device_code ≡ (object b).device_code
    kept_code b = ground arith

    kept_name :
        (b : ℕ) → (write object a (decide action (object a)) b).user_code ≡ (object b).user_code
    kept_name b = ground arith

approve-Inv :
    (es : List Event) (uc action : String)
    → Inv es (after es)
    → Inv (decided uc action ∷ es) (approve (after es) uc action).0
unfolding approve
approve-Inv es uc action i = elim (Option-cases (Dict.get (after es).by_user uc)) [
  | inl lost ↦ rw (lost, approve) (same-Inv es _ (after es) (λ a d. cc (lost, d.0)) i)
  | inr (a, there) ↦ rw (there, approve) (decided-Inv es uc action a there i)
]

new-Inv : Inv [] new_handler
unfolding new_handler
new-Inv = record {
  explained = λ a small. absurd (omega (arith, small));
  denied_old = λ a d. absurd d;
  by_code = λ dc a p. absurd (cc (p, get-empty {V = ℕ} dc));
  by_name = λ uc a p. absurd (cc (p, get-empty {V = ℕ} uc));
}

pub after-Inv : (es : List Event) → Inv es (after es)
after-Inv [] = new-Inv
after-Inv (requested client_id scope dc uc now ∷ es) =
    request_code-Inv es client_id scope dc uc now (after-Inv es)
after-Inv (finished dc a ∷ es) = finished-Inv es _ dc a _ (after-Inv es)
after-Inv (decided uc action ∷ es) = approve-Inv es uc action (after-Inv es)
after-Inv (cleaned now ∷ es) = cleanup-Inv es _ now (after-Inv es)
