-- ===== src/Token/Store.antt =====
-- internal/token/store.go: the file that registered clients are kept in. A disk is a dictionary from
-- paths to contents; JSON is a parameter, and which of the system calls succeed is an argument.
use Prim.Native.String.{◌++◌}
use oauth4os.Common.{
  String, Bool, true, false, Option, none, some, List, [], ◌∷◌, ◌==◌, if◌then◌else◌,
}
use oauth4os.Common.Dict
use oauth4os.Common.Dict.{Dict}
use oauth4os.Token.State.{Client, Manager}
use oauth4os.Token.Clients.{register_client}

-- json.MarshalIndent and json.Unmarshal on lists of clients
pub record Json : Type 0 where
  pub marshal : List Client → String
  pub unmarshal : String → Option (List Client)

abbrev pub backup_path : String → String
backup_path path = path ++ ".bak"

abbrev pub temp_path : String → String → String
temp_path path stamp = path ++ (".tmp." ++ stamp)

unfoldable pub load : Json → Dict String → String → Option (List Client)
load j disk path = elim (Dict.get disk path) [
  | none ↦ none
  | some content ↦ if content == "" then none else j.unmarshal content
]

-- what NewClientStore finds: the file, else the backup
unfoldable pub recover : Json → Dict String → String → Option (List Client)
unfolding load
recover j disk path = elim (load j disk path) [
  | some cs ↦ some cs
  | none ↦ load j disk (backup_path path)
]

unfoldable pub register_all : Manager → List Client → Manager
unfolding register_client
register_all m [] = m
register_all m (c ∷ cs) = register_all (register_client m c.id c.secret c.scopes c.redirect_uris) cs

-- NewClientStore, where the directory could be made; without valid data it starts fresh
unfoldable pub new_client_store : Json → Dict String → String → Manager → Manager
unfolding recover register_all
new_client_store j disk path m = elim (recover j disk path) [
  | none ↦ m
  | some cs ↦ register_all m cs
]

-- os.Rename of a file that is there
abbrev pub move : Dict String → String → String → Dict String
move disk from to = elim (Dict.get disk from) [
  | none ↦ disk
  | some content ↦ Dict.put (Dict.remove disk from) to content
]

-- Which of the system calls of one Save succeed.
pub record Luck : Type 0 where
  pub backs_up : Bool
  pub writes : Bool
  pub renames : Bool

-- The disk after each system call of Save, and at the end whether it reports success.
unfoldable pub backed_up : Luck → Dict String → String → Dict String
backed_up luck disk path = if luck.backs_up then move disk path (backup_path path) else disk

unfoldable pub written : Json → Luck → Dict String → String → String → List Client → Dict String
unfolding backed_up
written j luck disk path stamp cs =
    let before = backed_up luck disk path in
    if luck.writes then Dict.put before (temp_path path stamp) (j.marshal cs) else before

unfoldable pub save : Json → Luck → Dict String → String → String → List Client → Dict String × Bool
unfolding written
save j luck disk path stamp cs =
    let ready = written j luck disk path stamp cs in
    if luck.writes
    then if luck.renames
      then (move ready (temp_path path stamp) path, true)
      else (Dict.remove ready (temp_path path stamp), false)
    else (ready, false)
