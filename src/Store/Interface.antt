-- ===== src/Store/Interface.antt =====
-- internal/store/store.go: the interface of the stores, and what its users rely on.
use oauth4os.Common.{String, ◌≡◌, Bool, Option, none, some, List, ◌==◌, if◌then◌else◌}

-- `none` is ErrNotFound; the Boolean of a write says whether its error is nil.
pub record Store : Type 1 where
  pub State : Type 0
  pub get : State → String → Option String
  pub set : State → String → String → State × Bool
  pub delete : State → String → State × Bool
  pub list : State → List String
  pub close : State → State × Bool

-- A write is seen by the reads after it, and by no read of another key.
pub record IsLawful (S : Store) : Type 0 where
  pub get-set :
      (s : S.State) (k v j : String)
      → S.get (S.set s k v).0 j ≡ (if k == j then some v else S.get s j)
  pub get-delete :
      (s : S.State) (k j : String) → S.get (S.delete s k).0 j ≡ (if k == j then none else S.get s j)
