-- ===== src/IpFilter/Examples.antt =====
-- The theorem on the check at small networks: a network is a list of addresses, an address a text.
use oauth4os.Common.{String, ◌≡◌, refl, inl, Option, none, some, List, [], ◌∷◌, contains, arith}
use oauth4os.Common.Dict
use oauth4os.IpFilter.Filter.{
  Result, ok, Library, ClientFilter, Rules, check, extract_ip, filter_for,
}
use oauth4os.IpFilter.Checks.{Within, check_iff}

abbrev one_network : String → Result (List String)
one_network s = ok (s ∷ [])

abbrev no_port : String → Option String
no_port s = none

abbrev as_read : String → Option String
as_read s = some s

abbrev as_is : String → String
as_is s = s

abbrev net : Library (List String) String
net = record {
  parse_cidr = one_network;
  contains_ip = contains;
  split_host_port = no_port;
  parse_ip = as_read;
  show_ip = as_is;
  quote = as_is;
}

abbrev office : ClientFilter (List String)
office = record { allow = ("10.0.0.1" ∷ "10.0.0.2" ∷ []) ∷ []; deny = ("10.0.0.2" ∷ []) ∷ [] }

abbrev rules : Rules (List String)
rules = record { clients = Dict.put Dict.empty "app" office; global = none }

read_address : extract_ip net "10.0.0.1" ≡ some "10.0.0.1"
unfolding extract_ip
read_address = refl

has_filter : filter_for net rules "app" ≡ some office
unfolding Dict.get Dict.put Dict.empty
has_filter = refl

not_denied : ¬ Within net office.deny "10.0.0.1"
not_denied w = ground (arith, w)

check_iff_example : check net rules "app" "10.0.0.1" ≡ none
check_iff_example =
    (check_iff net rules "app" "10.0.0.1" "10.0.0.1" office read_address has_filter).1
      (not_denied, inl refl)
