-- ===== src/Token/Recovery.antt =====
-- internal/token/store.go: what a restart finds after a Save that was cut off anywhere.
use Prim.Native.String.{count}
use Prim.Native.String.{◌++◌ as append}
use text.Mathlib.TextLemmas.{append_cancel_left, length-append}
use oauth4os.Common.{
  String, ◌≡◌, ◌≢◌, ◌⊎◌, refl, ap, ◌∙◌, inl, inr, Bool, true, false, none, some, List, ◌==◌, eq_iff,
  eq_refl, Bool-cases, arith, if◌then◌else◌,
}
use oauth4os.Common.Dict
use oauth4os.Common.Dict.{Dict, get-put, get-remove}
use oauth4os.Token.State.{Client}
use oauth4os.Token.Store.{
  Json, Luck, backup_path, temp_path, load, recover, move, backed_up, written, save,
}

longer : (p s : String) → count s ≢ 0 → append p s ≢ p
longer p s h e = h (omega (arith, ap count e, length-append p s))

backup_differs : (path : String) → backup_path path ≢ path
backup_differs path e = longer path ".bak" (λ z. ground arith) e

temp_differs : (path stamp : String) → temp_path path stamp ≢ path
temp_differs path stamp e =
    longer path (append ".tmp." stamp) (λ z. omega (arith, length-append ".tmp." stamp, z)) e

temp-backup : (path stamp : String) → temp_path path stamp ≢ backup_path path
temp-backup path stamp e =
    let tails : append ".tmp." stamp ≡ ".bak" =
      append_cancel_left path (append ".tmp." stamp) ".bak" e in
    absurd (omega (arith, ap count tails, length-append ".tmp." stamp))

-- JSON gives back the clients that it was given, and does not write them as nothing.
pub record RoundTrip (j : Json) (cs : List Client) : Type 0 where
  pub again : j.unmarshal (j.marshal cs) ≡ some cs
  pub full : j.marshal cs ≢ ""

-- The clients are in the file, or there is no file and they are in the backup.
abbrev pub Holds : Json → Dict String → String → List Client → Type 0
Holds j disk path cs =
    (Dict.get disk path ≡ some (j.marshal cs))
    ⊎ ((Dict.get disk path ≡ none) × (Dict.get disk (backup_path path) ≡ some (j.marshal cs)))

load-written :
    (j : Json) (disk : Dict String) (path : String) (cs : List Client)
    → RoundTrip j cs
    → Dict.get disk path ≡ some (j.marshal cs)
    → load j disk path ≡ some cs
unfolding load
load-written j disk path cs t e =
    rw (e, load) (ground (arith, t.again, eq_iff (j.marshal cs) "", t.full))

recover-Holds :
    (j : Json) (disk : Dict String) (path : String) (cs : List Client)
    → RoundTrip j cs
    → Holds j disk path cs
    → recover j disk path ≡ some cs
unfolding recover
recover-Holds j disk path cs t (inl e) = rw (load-written j disk path cs t e, recover) refl
recover-Holds j disk path cs t (inr (lost, e)) =
    let nothing : load j disk path ≡ none = unfold load in rw (lost, load) refl in
    rw (nothing, recover) (load-written j disk (backup_path path) cs t e)

move-get :
    (disk : Dict String) (from to k : String) (x : String)
    → Dict.get disk from ≡ some x
    → Dict.get (move disk from to) k
      ≡ (if to == k then some x else if from == k then none else Dict.get disk k)
move-get disk from to k x e =
    rw (e, move) (get-put (Dict.remove disk from) to k x ∙ rw (get-remove disk from k) refl)

move-none :
    (disk : Dict String) (from to : String) → Dict.get disk from ≡ none → move disk from to ≡ disk
move-none disk from to e = rw (e, move) refl

backed_up-Holds :
    (j : Json) (luck : Luck) (disk : Dict String) (path : String) (cs : List Client)
    → Holds j disk path cs
    → Holds j (backed_up luck disk path) path cs
unfolding backed_up
backed_up-Holds j luck disk path cs h = elim (Bool-cases luck.backs_up) [
  | inr no_backup ↦ rw no_backup h
  | inl backup ↦ rw backup (moved h)
]
  where
    bak : String
    bak = backup_path path

    moved : Holds j disk path cs → Holds j (move disk path bak) path cs
    moved (inl e) = inr (
      ground (
        arith,
        move-get disk path bak path (j.marshal cs) e,
        eq_refl path,
        eq_iff bak path,
        backup_differs path,
      ),
      ground (arith, move-get disk path bak bak (j.marshal cs) e, eq_refl bak),
    )
    moved (inr (lost, e)) = rw (move-none disk path bak lost) (inr (lost, e))

-- What only the temporary file tells apart holds the same clients.
same-Holds :
    (j : Json) (one two : Dict String) (path : String) (cs : List Client)
    → Dict.get two path ≡ Dict.get one path
    → Dict.get two (backup_path path) ≡ Dict.get one (backup_path path)
    → Holds j one path cs
    → Holds j two path cs
same-Holds j one two path cs p b (inl e) = inl (p ∙ e)
same-Holds j one two path cs p b (inr (lost, e)) = inr (p ∙ lost, b ∙ e)

put_temp-Holds :
    (j : Json) (disk : Dict String) (path stamp x : String) (cs : List Client)
    → Holds j disk path cs
    → Holds j (Dict.put disk (temp_path path stamp) x) path cs
put_temp-Holds j disk path stamp x cs h =
    let tmp = temp_path path stamp in
    same-Holds j disk (Dict.put disk tmp x) path cs
      (ground (arith, get-put disk tmp path x, eq_iff tmp path, temp_differs path stamp))
      (ground (
        arith,
        get-put disk tmp (backup_path path) x,
        eq_iff tmp (backup_path path),
        temp-backup path stamp,
      ))
      h

remove_temp-Holds :
    (j : Json) (disk : Dict String) (path stamp : String) (cs : List Client)
    → Holds j disk path cs
    → Holds j (Dict.remove disk (temp_path path stamp)) path cs
remove_temp-Holds j disk path stamp cs h =
    let tmp = temp_path path stamp in
    same-Holds j disk (Dict.remove disk tmp) path cs
      (ground (arith, get-remove disk tmp path, eq_iff tmp path, temp_differs path stamp))
      (ground (
        arith,
        get-remove disk tmp (backup_path path),
        eq_iff tmp (backup_path path),
        temp-backup path stamp,
      ))
      h

written-Holds :
    (j : Json) (luck : Luck) (disk : Dict String) (path stamp : String) (new old : List Client)
    → Holds j disk path old
    → Holds j (written j luck disk path stamp new) path old
unfolding written
written-Holds j luck disk path stamp new old h =
    let kept = backed_up-Holds j luck disk path old h in
    elim (Bool-cases luck.writes) [
      | inr stuck ↦ rw stuck kept
      | inl fine ↦
          rw fine (put_temp-Holds j (backed_up luck disk path) path stamp (j.marshal new) old kept)
    ]

save-Holds :
    (j : Json) (luck : Luck) (disk : Dict String) (path stamp : String) (new old : List Client)
    → Holds j disk path old
    → let (after, done) = save j luck disk path stamp new in
      Holds j after path (if done then new else old)
unfolding save written
save-Holds j luck disk path stamp new old h = elim (Bool-cases luck.writes) [
  | inr stuck ↦ rw stuck (backed_up-Holds j luck disk path old h)
  | inl fine ↦
      let tmp = temp_path path stamp in
      let ready = Dict.put (backed_up luck disk path) tmp (j.marshal new) in
      let there : Dict.get ready tmp ≡ some (j.marshal new) =
        get-put (backed_up luck disk path) tmp tmp (j.marshal new) ∙ rw (eq_refl tmp) refl in
      elim (Bool-cases luck.renames) [
        | inr stuck ↦ rw fine (
            rw stuck (
              remove_temp-Holds j ready path stamp old (
                put_temp-Holds j (backed_up luck disk path) path stamp (j.marshal new) old
                  (backed_up-Holds j luck disk path old h))))
        | inl renamed ↦ rw fine (
            rw renamed
              (inl (move-get ready tmp path path (j.marshal new) there ∙ rw (eq_refl path) refl)))
      ]
]

-- Where the file, or without one the backup, has the clients, a restart finds them at every point of
-- a Save, whichever of its system calls fail: the old ones until its last step, and after that the
-- new ones exactly if it reports success. JSON is to give back either list.
pub save_recovers :
    (j : Json) (luck : Luck) (disk : Dict String) (path stamp : String) (new old : List Client)
    → RoundTrip j old
    → RoundTrip j new
    → Holds j disk path old
    → let (after, done) = save j luck disk path stamp new in
      (recover j (backed_up luck disk path) path ≡ some old)
      × (recover j (written j luck disk path stamp new) path ≡ some old)
      × (recover j after path ≡ some (if done then new else old))
      × Holds j after path (if done then new else old)
save_recovers j luck disk path stamp new old t u h =
    let final = save-Holds j luck disk path stamp new old h in
    (
      recover-Holds j _ path old t (backed_up-Holds j luck disk path old h),
      recover-Holds j _ path old t (written-Holds j luck disk path stamp new old h),
      recover-Holds j _ path _ (either (save j luck disk path stamp new).1 u t) final,
      final,
    )
  where
    either :
        (done : Bool) → RoundTrip j new → RoundTrip j old → RoundTrip j (if done then new else old)
    either true x y = x
    either false x y = y
