-- ===== src/TokenBind/Kept.antt =====
-- internal/tokenbind/binder.go: the first fingerprint of a prefix stays.
use oauth4os.Common.{
  String, ◌≡◌, refl, ◌∙◌, ap, inl, inr, true, some, eq_iff, eq_refl, Option-cases, eq_sound, arith,
}
use oauth4os.Common.Dict
use oauth4os.Common.Dict.{get-put}
use oauth4os.TokenBind.Binder.{Binder, bind, verify}

pub bind-kept :
    (b : Binder) (k fp k' f : String)
    → Dict.get b.bindings k' ≡ some f
    → Dict.get (bind b k fp).bindings k' ≡ some f
unfolding bind
bind-kept b k fp k' f h = elim (Option-cases (Dict.get b.bindings k)) [
  | inl free ↦ rw (free, bind) (rw get-put (ground (arith, h, free, eq_iff k k')))
  | inr (old, taken) ↦ rw (taken, bind) h
]

-- What passed the test is what the prefix is bound to afterwards.
pub bind-verified :
    (b : Binder) (k fp : String)
    → verify b k fp ≡ true
    → Dict.get (bind b k fp).bindings k ≡ some fp
unfolding bind verify
bind-verified b k fp h = elim (Option-cases (Dict.get b.bindings k)) [
  | inl free ↦ rw (free, bind) (rw get-put (rw (eq_refl k) refl))
  | inr (old, taken) ↦
      rw (taken, bind) (taken ∙ ap some (eq_sound old fp (rw (taken, verify) at h)))
]

pub verify-bound :
    (b : Binder) (k fp f : String) → Dict.get b.bindings k ≡ some f → verify b k fp ≡ true → f ≡ fp
unfolding verify
verify-bound b k fp f there h = eq_sound f fp (rw (there, verify) at h)
