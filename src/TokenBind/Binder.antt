-- ===== src/TokenBind/Binder.antt =====
-- internal/tokenbind/binder.go: the binder and its methods. SHA-256 in hexadecimal and
-- net.SplitHostPort are arguments.
use Prim.Native.String.{◌++◌, slice}
use oauth4os.Common.{String, Bool, true, Option, none, some, ◌==◌}
use oauth4os.Common.Dict
use oauth4os.Common.Dict.{Dict, get-put, get-remove}

pub record Binder : Type 0 where
  pub bindings : Dict String

unfoldable pub new : Binder
new = record { bindings = Dict.empty }

unfoldable pub fingerprint : (String → String) → (String → Option String) → String → String → String
fingerprint sha256_hex split_host_port remote_addr user_agent =
    let ip = Dict.or_else (split_host_port remote_addr) remote_addr in
    slice (sha256_hex (ip ++ user_agent)) 0 16

unfoldable pub bind : Binder → String → String → Binder
bind b prefix fp = elim (Dict.get b.bindings prefix) [
  | none ↦ record { bindings = Dict.put b.bindings prefix fp }
  | some old ↦ b
]

unfoldable pub verify : Binder → String → String → Bool
verify b prefix fp = elim (Dict.get b.bindings prefix) [ none ↦ true | some bound ↦ bound == fp ]

unfoldable pub remove : Binder → String → Binder
remove b prefix = record { bindings = Dict.remove b.bindings prefix }
