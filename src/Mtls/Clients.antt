-- ===== src/Mtls/Clients.antt =====
-- internal/mtls/mtls.go: the map of clients and `Identify`. strings.ToLower is an argument.
use oauth4os.Common.{String, Option, none, some, List, [], ◌∷◌}
use oauth4os.Common.Dict
use oauth4os.Common.Dict.{Dict}

pub record ClientEntry : Type 0 where
  pub client_id : String
  pub scopes : List String

pub record ClientMap : Type 0 where
  pub entries : Dict ClientEntry

-- What is read of an x509.Certificate.
pub record Certificate : Type 0 where
  pub common_name : String
  pub dns_names : List String
  pub email_addresses : List String

module _ (to_lower : String → String) where
  -- the loop of NewClientMap
  unfoldable pub lower_keys : List (String × ClientEntry) → Dict ClientEntry → Dict ClientEntry
  lower_keys [] entries = entries
  lower_keys ((k, v) ∷ rest) entries = lower_keys rest (Dict.put entries (to_lower k) v)

  unfoldable pub new_client_map : Dict ClientEntry → ClientMap
  unfolding lower_keys
  new_client_map clients = record { entries = lower_keys clients.range Dict.empty }

  -- the loops over the names: the first that has an entry
  unfoldable pub first_entry : ClientMap → List String → Option ClientEntry
  first_entry m [] = none
  first_entry m (n ∷ ns) =
      let rest = first_entry m ns in
      elim (Dict.get m.entries (to_lower n)) [ none ↦ rest | some entry ↦ some entry ]

  -- `none` is the error, also where there is no certificate
  unfoldable pub identify : ClientMap → Option Certificate → Option ClientEntry
  unfolding first_entry
  identify m none = none
  identify m (some cert) = elim (Dict.get m.entries (to_lower cert.common_name)) [
    | some entry ↦ some entry
    | none ↦ elim (first_entry m cert.dns_names) [
      | some entry ↦ some entry
      | none ↦ first_entry m cert.email_addresses
    ]
  ]
