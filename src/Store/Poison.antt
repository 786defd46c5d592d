-- ===== src/Store/Poison.antt =====
-- internal/store/store.go: what the store in a file has on the disk after its writes.
use oauth4os.Common.{
  String, ◌≡◌, ◌≢◌, ◌⊎◌, refl, ap, ◌∙◌, inl, inr, Bool, true, false, none, some, List, [], ◌∷◌,
  ◌==◌, eq_iff, eq_refl, Option-cases, arith, if◌then◌else◌, All,
}
use oauth4os.Common.Dict
use oauth4os.Common.Dict.{Dict, get-put, get-remove, map_option}
use oauth4os.Store.Interface.{IsLawful}
use oauth4os.Store.File.{Json, File, write_file, new_file, flush, set, delete, file}

flush-contents : (json : Json) (f : File) → (flush json f).0.contents ≡ f.contents
unfolding flush
flush-contents json f = elim (Option-cases (json.marshal f.contents)) [
  | inl bad ↦ rw (bad, flush) refl
  | inr (raw, fine) ↦ rw (fine, flush) (written f.writes raw)
]
  where
    written :
        (ws : List Bool) (raw : String)
        → (write_file (record f { writes = ws }) raw).0.contents ≡ f.contents
    written [] raw = refl
    written (true ∷ ws) raw = refl
    written (false ∷ ws) raw = refl

-- The store in a file meets the interface, whether its writes reach the disk or not.
pub file-IsLawful : (json : Json) → IsLawful (file json)
unfolding set delete
file-IsLawful json = record {
  get-set = λ f k v j. ap (λ d. Dict.get d j) (flush-contents json _) ∙ get-put f.contents k j v;
  get-delete = λ f k j. ap (λ d. Dict.get d j) (flush-contents json _) ∙ get-remove f.contents k j;
}

-- What a flush leaves on the disk.
flush-disk :
    (json : Json) (f : File)
    → (((flush json f).1 ≡ true)
        × (raw : String) × (json.marshal f.contents ≡ some raw)
        × ((flush json f).0.on_disk ≡ some raw))
      ⊎ (((flush json f).1 ≡ false) × ((flush json f).0.on_disk ≡ f.on_disk))
unfolding flush
flush-disk json f = elim (Option-cases (json.marshal f.contents)) [
  | inl bad ↦ inr (rw (bad, flush) refl, rw (bad, flush) refl)
  | inr (raw, fine) ↦ rw (fine, flush) (written f.writes raw)
]
  where
    written :
        (ws : List Bool) (raw : String)
        → let out = write_file (record f { writes = ws }) raw in
          ((out.1 ≡ true) × (r : String) × (some raw ≡ some r) × (out.0.on_disk ≡ some r))
          ⊎ ((out.1 ≡ false) × (out.0.on_disk ≡ f.on_disk))
    written [] raw = inl (refl, raw, refl, refl)
    written (true ∷ ws) raw = inl (refl, raw, refl, refl)
    written (false ∷ ws) raw = inr (refl, refl)

-- A store that is opened from the file after a write has the entries with that write, if the write went
-- well; otherwise the file is as it was before the write. JSON may lay out the values anew.
pub set-durable :
    (json : Json) (norm : String → String) (f : File) (key value : String) (writes : List Bool)
    → ((d : Dict String) (raw j : String)
        → json.marshal d ≡ some raw
        → Dict.get (json.unmarshal raw) j ≡ map_option norm (Dict.get d j))
    → (((set json f key value).1 ≡ true)
        × ((j : String)
            → Dict.get (new_file json (set json f key value).0.on_disk writes).contents j
              ≡ map_option norm (if key == j then some value else Dict.get f.contents j)))
      ⊎ (((set json f key value).1 ≡ false) × ((set json f key value).0.on_disk ≡ f.on_disk))
unfolding set new_file
set-durable json norm f key value writes reads =
    elim (flush-disk json (record f { contents = Dict.put f.contents key value })) [
      | inr (bad, same) ↦ inr (bad, same)
      | inl (fine, raw, made, there) ↦ inl (
        fine,
        λ j.
            ap (λ o. Dict.get (new_file json o writes).contents j) there
            ∙ reads (Dict.put f.contents key value) raw j made
            ∙ ap (map_option norm) (get-put f.contents key j value),
      )
    ]

-- A write of the store.
pub data Write : Type 0 where
  sets : String → String → Write
  deletes : String → Write

abbrev pub key_of : Write → String
key_of (sets key value) = key
key_of (deletes key) = key

module _ (json : Json) where
  abbrev pub apply : File → Write → File × Bool
  apply f (sets key value) = set json f key value
  apply f (deletes key) = delete json f key

  -- The file at the end, and whether each write went well.
  abbrev pub apply_all : File → List Write → File × List Bool
  apply_all f [] = (f, [])
  apply_all f (w ∷ ws) =
      let (f', fine) = apply f w in let (f'', rest) = apply_all f' ws in (f'', fine ∷ rest)

  module _ (valid : String → Bool)
      (rejects : (d : Dict String) (k v : String)
        → Dict.get d k ≡ some v
        → valid v ≡ false
        → json.marshal d ≡ none) where
    flush-fails :
        (f : File) (key bad : String)
        → Dict.get f.contents key ≡ some bad
        → valid bad ≡ false
        → flush json f ≡ (f, false)
    unfolding flush
    flush-fails f key bad there wrong = rw (rejects f.contents key bad there wrong, flush) refl

    apply-fails :
        (f : File) (w : Write) (key bad : String)
        → key_of w ≢ key
        → Dict.get f.contents key ≡ some bad
        → valid bad ≡ false
        → ((apply f w).1 ≡ false)
          × ((apply f w).0.on_disk ≡ f.on_disk)
          × (Dict.get (apply f w).0.contents key ≡ some bad)
    unfolding set delete
    apply-fails f (sets k v) key bad ne there wrong =
        let kept : Dict.get (Dict.put f.contents k v) key ≡ some bad =
          get-put f.contents k key v ∙ ground (arith, there, ne, eq_iff k key) in
        let all =
          flush-fails (record f { contents = Dict.put f.contents k v }) key bad kept wrong in
        rw (all, set) (refl, refl, kept)
    apply-fails f (deletes k) key bad ne there wrong =
        let kept : Dict.get (Dict.remove f.contents k) key ≡ some bad =
          get-remove f.contents k key ∙ ground (arith, there, ne, eq_iff k key) in
        let all =
          flush-fails (record f { contents = Dict.remove f.contents k }) key bad kept wrong in
        rw (all, delete) (refl, refl, kept)

    apply_all_fails :
        (ws : List Write) (f : File) (key bad : String)
        → All (λ w. key_of w ≢ key) ws
        → Dict.get f.contents key ≡ some bad
        → valid bad ≡ false
        → All (λ b. b ≡ false) (apply_all f ws).1 × ((apply_all f ws).0.on_disk ≡ f.on_disk)
    apply_all_fails [] f key bad others there wrong = (tt, refl)
    apply_all_fails (w ∷ ws) f key bad others there wrong =
        let (fails, disk, kept) = apply-fails f w key bad others.0 there wrong in
        let (rest, disk') = apply_all_fails ws (apply f w).0 key bad others.1 kept wrong in
        ((fails, rest), disk' ∙ disk)

    -- A value that is no JSON fails to be stored, but stays in the map: then every later write of any
    -- other key fails as well, and the file stays as it was before the bad value.
    pub set-poisons :
        (f : File) (key bad : String) (ws : List Write)
        → valid bad ≡ false
        → All (λ w. key_of w ≢ key) ws
        → let out = apply_all (set json f key bad).0 ws in
          ((set json f key bad).1 ≡ false)
          × All (λ b. b ≡ false) out.1
          × (out.0.on_disk ≡ f.on_disk)
    unfolding set
    set-poisons f key bad ws wrong others =
        let f1 : File = record f { contents = Dict.put f.contents key bad } in
        let there : Dict.get f1.contents key ≡ some bad =
          get-put f.contents key key bad ∙ rw (eq_refl key) refl in
        let (fails, disk) = apply_all_fails ws f1 key bad others there wrong in
        rw (flush-fails f1 key bad there wrong, set) (refl, fails, disk)
