-- ===== src/Cedar/Globs.antt =====
-- internal/cedar/engine.go: `globMatch` against concatenation of texts.
use Prim.Native.String.{count}
use Prim.Native.String.{◌++◌ as append}
use text.Mathlib.TextLemmas.{length-append, length-eq-zero_iff, append-nil, nil-append}
use oauth4os.Common.{
  String, ◌≡◌, ◌≢◌, ◌↔◌, sym, ap, ◌∙◌, inl, inr, true, ◌&&◌, ◌==◌, eq_iff, Bool-cases, arith,
}
use oauth4os.Common.Text.{has_prefix, has_suffix, split}
use oauth4os.Common.Text.Affixes.{
  IsPlain, star_in, split_one_star, prefix-append, prefix_split, suffix-append, suffix_split,
}
use oauth4os.Cedar.Engine.{glob_match, match_parts}

-- A pattern with one star, between two parts that have none.
abbrev pub starred : String → String → String
starred p q = append p (append "*" q)

any_suffix : (v : String) → has_suffix v "" ≡ true
any_suffix v = rw (← append-nil v) (suffix-append v "")

star_alone : (p q v : String) → starred p q ≡ "*" → match_parts (split b'*' (starred p q)) v ≡ true
unfolding split has_prefix
star_alone p q v e = rw e (rw (any_suffix v))

glob_match-parts :
    (p q v : String)
    → IsPlain p
    → IsPlain q
    → glob_match (starred p q) v ≡ (has_prefix v p && has_suffix v q)
unfolding glob_match
glob_match-parts p q v hp hq = elim (Bool-cases (starred p q == "*")) [
  | inl e ↦ rw e (sym (rw (split_one_star p q hp hq) at (star_alone p q v ((eq_iff _ _).0 e))))
  | inr e ↦ rw (e, star_in p q, split_one_star p q hp hq)
]

begins : (p r v : String) → v ≡ append p r → has_prefix v p ≡ true
begins p r v e = rw e (prefix-append p r)

ends : (q l v : String) → v ≡ append l q → has_suffix v q ≡ true
ends q l v e = rw e (suffix-append l q)

-- A pattern with one star matches exactly the texts that begin with what stands before it and end
-- with what stands after it. (The two may overlap.)
pub glob_match_iff :
    (p q v : String)
    → IsPlain p
    → IsPlain q
    → (glob_match (starred p q) v ≡ true)
      ↔ (((r : String) × (v ≡ append p r)) × ((l : String) × (v ≡ append l q)))
glob_match_iff p q v hp hq = (
  (λ h.
      let both : (has_prefix v p && has_suffix v q) ≡ true =
        sym (glob_match-parts p q v hp hq) ∙ h in
      (prefix_split v p (ground arith), suffix_split v q (ground arith))),
  λ parts.
      glob_match-parts p q v hp hq
      ∙ rw (begins p parts.0.0 v parts.0.1, ends q parts.1.0 v parts.1.1),
)

too_long : (p m : String) → p ≢ "" → p ≢ append p (append m p)
too_long p m full e = full (
    length-eq-zero_iff.0
      (omega (arith, ap count e, length-append p (append m p), length-append m p)))

-- Because the parts may overlap, the pattern `p*p` matches p itself, which is not p, then any text,
-- then p.
pub glob_overlap :
    (p : String)
    → IsPlain p
    → p ≢ ""
    → (glob_match (starred p p) p ≡ true) × ¬ ((m : String) × (p ≡ append p (append m p)))
glob_overlap p plain full = (
  (glob_match_iff p p p plain plain).1 (("", sym (append-nil p)), ("", sym (nil-append p))),
  λ split. too_long p split.0 full split.1,
)
