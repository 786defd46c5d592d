-- ===== src/IpFilter/Checks.antt =====
-- internal/ipfilter/filter.go: which addresses pass, and what a configuration that was read holds.
use oauth4os.Common.{
  String, ◌≡◌, ◌↔◌, refl, ◌∙◌, inl, inr, true, false, Option, none, some, List, [], ◌∷◌, Any,
  Bool-cases, arith, if◌then◌else◌,
}
use oauth4os.IpFilter.Filter.{
  Library, ClientFilter, Rules, any_contains, extract_ip, filter_for, off_list, check, refusal,
}

module _ {Net Ip : Type 0} (net : Library Net Ip) where
  -- A network of the list has the address.
  abbrev pub Within : List Net → Ip → Type 0
  Within ns ip = Any (λ n. net.contains_ip n ip ≡ true) ns

  -- An allow list that is empty allows all.
  abbrev pub Allowed : List Net → Ip → Type 0
  Allowed [] ip = Unit
  Allowed (n ∷ ns) ip = Within (n ∷ ns) ip

  any_contains-Within : (ns : List Net) (ip : Ip) → any_contains net ns ip ≡ true → Within ns ip
  unfolding any_contains
  any_contains-Within [] ip h = absurd (ground arith)
  any_contains-Within (n ∷ ns) ip h = elim (Bool-cases (net.contains_ip n ip)) [
    | inl e ↦ inl e
    | inr e ↦ inr (any_contains-Within ns ip (ground arith))
  ]

  Within-any_contains : (ns : List Net) (ip : Ip) → Within ns ip → any_contains net ns ip ≡ true
  unfolding any_contains
  Within-any_contains [] ip h = absurd h
  Within-any_contains (n ∷ ns) ip (inl h) = ground arith
  Within-any_contains (n ∷ ns) ip (inr h) = ground (arith, Within-any_contains ns ip h)

  off_list-Allowed : (ns : List Net) (ip : Ip) → (off_list net ns ip ≡ false) ↔ Allowed ns ip
  off_list-Allowed [] ip = ((λ h. tt), λ h. refl)
  off_list-Allowed (n ∷ ns) ip = (
    (λ h. any_contains-Within (n ∷ ns) ip (ground arith)),
    λ h. ground (arith, Within-any_contains (n ∷ ns) ip h),
  )

  -- what the check answers by a filter
  abbrev verdict : ClientFilter Net → Ip → String → Option String
  verdict f ip client =
      if any_contains net f.deny ip
      then refusal net ip " denied for client " client
      else if off_list net f.allow ip
      then refusal net ip " not in allowlist for client " client
      else none

  check-verdict :
      (r : Rules Net) (client addr : String) (ip : Ip) (f : ClientFilter Net)
      → extract_ip net addr ≡ some ip
      → filter_for net r client ≡ some f
      → check net r client addr ≡ verdict f ip client
  unfolding check
  check-verdict r client addr ip f e g = rw (e, check) (rw (g, check) refl)

  -- For an address that can be read and a client that a filter is in force for, its own or else the
  -- global one, the check lets the request through exactly if no denied network has the address and
  -- an allowed one has it or the allow list is empty.
  pub check_iff :
      (r : Rules Net) (client addr : String) (ip : Ip) (f : ClientFilter Net)
      → extract_ip net addr ≡ some ip
      → filter_for net r client ≡ some f
      → (check net r client addr ≡ none) ↔ (¬ Within f.deny ip × Allowed f.allow ip)
  check_iff r client addr ip f e g =
      let answer = check-verdict r client addr ip f e g in
      (
        (λ h. (
          (λ w. ground (arith, Within-any_contains f.deny ip w)),
          (off_list-Allowed f.allow ip).0 (ground arith),
        )),
        λ h.
            let on = (off_list-Allowed f.allow ip).1 h.1 in
            elim (Bool-cases (any_contains net f.deny ip)) [
              | inl bad ↦ absurd (h.0 (any_contains-Within f.deny ip bad))
              | inr good ↦ answer ∙ rw good (rw on refl)
            ],
      )
