-- ===== src/Store/Memory.antt =====
-- internal/store/store.go: the store in memory. The copies of values that it makes are not seen here.
use oauth4os.Common.{String, true}
use oauth4os.Common.Dict
use oauth4os.Common.Dict.{Dict, get-put, get-remove}
use oauth4os.Common.Dict.Size.{keys}
use oauth4os.Store.Interface.{Store, IsLawful}

unfoldable pub new_memory : Dict String
new_memory = Dict.empty

abbrev pub memory : Store
memory = record {
  State = Dict String;
  get = λ d k. Dict.get d k;
  set = λ d k v. (Dict.put d k v, true);
  delete = λ d k. (Dict.remove d k, true);
  list = λ d. keys d.range;
  close = λ d. (d, true);
}

-- The store in memory meets the interface.
pub memory-IsLawful : IsLawful memory
memory-IsLawful = record {
  get-set = λ d k v j. get-put d k j v;
  get-delete = λ d k j. get-remove d k j;
}
