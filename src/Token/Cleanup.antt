-- ===== src/Token/Cleanup.antt =====
-- internal/token/manager.go: what Cleanup removes.
use oauth4os.Common.{
  ℕ, ◌+◌, ◌≤◌, String, ◌≡◌, inl, inr, true, false, some, List, [], ◌∷◌, arith, ◌==◌, eq_iff,
  Bool-cases, All, if◌then◌else◌,
}
use oauth4os.Common.Dict
use oauth4os.Common.Dict.{Dict, get-remove, get-sweep, get-All, unless}
use oauth4os.Token.State.{Token, Manager}
use oauth4os.Token.Maintain.{is_valid, is_dead, cleanup_loop, cleanup}
use oauth4os.Token.Invariant.{Inv}

-- The loop deletes the refresh token of each dead token that it visits, and no other.
cleanup_loop-get :
    (now : ℕ) (l : List (String × Token)) (d : Dict String) (n : ℕ) (r id : String)
    → Dict.get (cleanup_loop now l d n).0 r ≡ some id
    → (Dict.get d r ≡ some id)
      × All (λ e. is_dead now e.1 ≡ true → (e.1.refresh_token == r) ≡ false) l
unfolding cleanup_loop
cleanup_loop-get now [] d n r id e = (e, tt)
cleanup_loop-get now ((k, tok) ∷ l) d n r id e =
    let ih =
      cleanup_loop-get now l (if is_dead now tok then Dict.remove d tok.refresh_token else d)
        (if is_dead now tok then n + 1 else n) r id e in
    (
      ground (arith, ih.0, get-remove d tok.refresh_token r),
      ((λ dead. ground (arith, ih.0, get-remove d tok.refresh_token r)), ih.1),
    )

-- A refresh token that is left is one that was there.
pub cleanup-fewer :
    (m : Manager) (now : ℕ) (r id : String)
    → Dict.get (cleanup m now).0.refresh r ≡ some id
    → Dict.get m.refresh r ≡ some id
unfolding cleanup
cleanup-fewer m now r id e = (cleanup_loop-get now m.tokens.range m.refresh 0 r id e).0

-- A token whose refresh token is left is alive.
pub cleanup-alive :
    (m : Manager) (now : ℕ) (r id : String) (k : String) (tok : Token)
    → Dict.get (cleanup m now).0.refresh r ≡ some id
    → Dict.get m.tokens k ≡ some tok
    → tok.refresh_token ≡ r
    → is_dead now tok ≡ false
unfolding cleanup
cleanup-alive m now r id k tok e there names = elim (Bool-cases (is_dead now tok)) [
  | inl dead ↦
      let kept : (tok.refresh_token == r) ≡ false =
        get-All (λ t. is_dead now t ≡ true → (t.refresh_token == r) ≡ false) m.tokens k tok
          (cleanup_loop-get now m.tokens.range m.refresh 0 r id e).1 there dead in
      ground (arith, eq_iff tok.refresh_token r)
  | inr alive ↦ alive
]

module _ (m : Manager) (now : ℕ) (v : Inv m) where
  cleanup-leads :
      (r id : String)
      → Dict.get (cleanup m now).0.refresh r ≡ some id
      → (tok : Token) × (Dict.get (cleanup m now).0.tokens id ≡ some tok) × (tok.refresh_token ≡ r)
  cleanup-leads r id e =
      let (tok, there, names) = v.leads r id (cleanup-fewer m now r id e) in
      let alive = cleanup-alive m now r id id tok e there names in
      (tok, unfold cleanup in ground (arith, get-sweep m.tokens id (is_dead now)), names)

  pub cleanup-Inv : Inv (cleanup m now).0
  unfolding cleanup
  cleanup-Inv = record {
    named = λ id tok e. v.named id tok (ground (arith, get-sweep m.tokens id (is_dead now)));
    in_family =
        λ id tok e. v.in_family id tok (ground (arith, get-sweep m.tokens id (is_dead now)));
    leads = cleanup-leads;
    unused = λ r id e. v.unused r id (cleanup-fewer m now r id e);
  }

-- Clean-up takes no token that could pass a check: at its own time and at any later one, a token
-- is valid after it exactly if it was valid before.
pub is_valid-cleanup :
    (m : Manager) (now later : ℕ) (id : String)
    → now ≤ later
    → is_valid (cleanup m now).0 later id ≡ is_valid m later id
unfolding is_valid cleanup is_dead
is_valid-cleanup m now later id h = ground (arith, get-sweep m.tokens id (is_dead now))
