-- ===== src/IpFilter/Filter.antt =====
-- internal/ipfilter/filter.go: the rules, how they are read from the configuration, and the check.
-- Package net is a parameter: `Net` and `Ip` are its networks and addresses, and `Library` its
-- functions. A client of the configuration has a filter (no entry is nil).
use Prim.Native.String.{◌++◌}
use oauth4os.Common.{
  String, Bool, false, not, ◌||◌, Option, none, some, List, [], ◌∷◌, if◌then◌else◌,
}
use oauth4os.Common.Dict
use oauth4os.Common.Dict.{Dict}
use oauth4os.Common.Text.{contains_text}

-- A value, or the text of an error.
pub data Result (A : Type 0) : Type 0 where
  ok : A → Result A
  err : String → Result A

pub data Answer : Type 0 where
  passed : Answer
  forbidden : String → Answer

pub record Library (Net Ip : Type 0) : Type 0 where
  pub parse_cidr : String → Result Net
  pub contains_ip : Net → Ip → Bool
  pub split_host_port : String → Option String
  pub parse_ip : String → Option Ip
  pub show_ip : Ip → String
  pub quote : String → String

pub record ClientFilter (Net : Type 0) : Type 0 where
  pub allow : List Net
  pub deny : List Net

pub record Rules (Net : Type 0) : Type 0 where
  pub clients : Dict (ClientFilter Net)
  pub global : Option (ClientFilter Net)

pub record FilterConfig : Type 0 where
  pub allow : List String
  pub deny : List String

pub record Config : Type 0 where
  pub global : Option FilterConfig
  pub clients : Dict FilterConfig

unfoldable pub normalize_cidr : String → String
normalize_cidr s =
    if contains_text s "/" then s else if contains_text s ":" then s ++ "/128" else s ++ "/32"

module _ {Net Ip : Type 0} (net : Library Net Ip) where
  -- one loop of parseFilter: the networks of a list, or the first that does not parse
  unfoldable pub parse_list : String → List String → Result (List Net)
  unfolding normalize_cidr
  parse_list kind [] = ok []
  parse_list kind (s ∷ ss) =
      let rest = parse_list kind ss in
      elim (net.parse_cidr (normalize_cidr s)) [
        | err e ↦ err ("invalid " ++ (kind ++ (" CIDR " ++ (net.quote s ++ (": " ++ e)))))
        | ok n ↦ elim rest [ err e ↦ err e | ok ns ↦ ok (n ∷ ns) ]
      ]

  unfoldable pub parse_filter : FilterConfig → Result (ClientFilter Net)
  unfolding parse_list
  parse_filter fc = elim (parse_list "allow" fc.allow) [
    | err e ↦ err e
    | ok allow ↦ elim (parse_list "deny" fc.deny) [
      | err e ↦ err e
      | ok deny ↦ ok (record { allow = allow; deny = deny })
    ]
  ]

  -- the loop of New over the clients
  unfoldable pub parse_clients :
      List (String × FilterConfig) → Dict (ClientFilter Net) → Result (Dict (ClientFilter Net))
  unfolding parse_filter
  parse_clients [] clients = ok clients
  parse_clients ((id, fc) ∷ rest) clients = elim (parse_filter fc) [
    | err e ↦ err ("client " ++ (id ++ (": " ++ e)))
    | ok f ↦ parse_clients rest (Dict.put clients id f)
  ]

  abbrev pub with_global :
      Option (ClientFilter Net) → Result (Dict (ClientFilter Net)) → Result (Rules Net)
  with_global global (err e) = err e
  with_global global (ok clients) = ok (record { clients = clients; global = global })

  unfoldable pub new : Config → Result (Rules Net)
  unfolding parse_clients
  new cfg = elim cfg.global [
    | none ↦ with_global none (parse_clients cfg.clients.range Dict.empty)
    | some fc ↦ elim (parse_filter fc) [
      | err e ↦ err ("global: " ++ e)
      | ok f ↦ with_global (some f) (parse_clients cfg.clients.range Dict.empty)
    ]
  ]

  abbrev pub host_of : String → String
  host_of addr = elim (net.split_host_port addr) [ none ↦ addr | some host ↦ host ]

  unfoldable pub extract_ip : String → Option Ip
  extract_ip addr = net.parse_ip (host_of addr)

  unfoldable pub any_contains : List Net → Ip → Bool
  any_contains [] ip = false
  any_contains (n ∷ ns) ip = net.contains_ip n ip || any_contains ns ip

  -- the filter of the client, else the global one
  abbrev pub filter_for : Rules Net → String → Option (ClientFilter Net)
  filter_for r client_id = elim (Dict.get r.clients client_id) [ none ↦ r.global | some f ↦ some f ]

  -- `if len(filter.Allow) > 0 { ... }`
  abbrev pub off_list : List Net → Ip → Bool
  off_list [] ip = false
  off_list (n ∷ ns) ip = not (any_contains (n ∷ ns) ip)

  abbrev pub refusal : Ip → String → String → Option String
  refusal ip what client_id = some ("ip " ++ (net.show_ip ip ++ (what ++ client_id)))

  -- `none` lets the request through; otherwise the text of the error
  unfoldable pub check : Rules Net → String → String → Option String
  unfolding any_contains extract_ip
  check r client_id remote_addr = elim (extract_ip remote_addr) [
    | none ↦ none
    | some ip ↦ elim (filter_for r client_id) [
      | none ↦ none
      | some f ↦
          if any_contains f.deny ip
          then refusal ip " denied for client " client_id
          else if off_list f.allow ip
          then refusal ip " not in allowlist for client " client_id
          else none
    ]
  ]

  -- What the middleware does with a request of a client: it goes on, or is answered 403 with a text.
  unfoldable pub middleware : Rules Net → String → String → Answer
  unfolding check
  middleware r client_id remote_addr = elim (check r client_id remote_addr) [
    | none ↦ passed
    | some message ↦ forbidden message
  ]
