-- ===== src/Store/File.antt =====
-- internal/store/store.go: the store in a file. JSON is a parameter, and so is what the disk does: each
-- write of the temporary file, with its sync and its rename, goes well or does not.
use oauth4os.Common.{String, Bool, true, false, Option, none, some, List, [], ◌∷◌, if◌then◌else◌}
use oauth4os.Common.Dict
use oauth4os.Common.Dict.{Dict, get-put, get-remove, or_else}
use oauth4os.Common.Dict.Size.{keys}
use oauth4os.Store.Interface.{Store}

-- MarshalIndent fails where a value is no JSON. Unmarshal gives what it could read.
pub record Json : Type 0 where
  pub marshal : Dict String → Option String
  pub unmarshal : String → Dict String

-- The map, the text of the file (`none` where there is no file), and how the next writes of it go.
pub record File : Type 0 where
  pub contents : Dict String
  pub on_disk : Option String
  pub writes : List Bool

-- the write of the temporary file and its rename, which replaces the file only where all went well
abbrev pub write_file : File → String → File × Bool
write_file f raw = elim f.writes [
  | [] ↦ (record f { on_disk = some raw }, true)
  | fine ∷ rest ↦
      if fine
      then (record f { on_disk = some raw; writes = rest }, true)
      else (record f { writes = rest }, false)
]

module _ (json : Json) where
  -- NewFile, of what the disk has
  unfoldable pub new_file : Option String → List Bool → File
  new_file on_disk writes = record {
    contents = elim on_disk [ none ↦ Dict.empty | some raw ↦ json.unmarshal raw ];
    on_disk = on_disk;
    writes = writes;
  }

  unfoldable pub flush : File → File × Bool
  flush f = elim (json.marshal f.contents) [ none ↦ (f, false) | some raw ↦ write_file f raw ]

  unfoldable pub set : File → String → String → File × Bool
  unfolding flush
  set f key value = flush (record f { contents = Dict.put f.contents key value })

  unfoldable pub delete : File → String → File × Bool
  unfolding flush
  delete f key = flush (record f { contents = Dict.remove f.contents key })

  abbrev pub file : Store
  file = record {
    State = File;
    get = λ f k. Dict.get f.contents k;
    set = set;
    delete = delete;
    list = λ f. keys f.contents.range;
    close = flush;
  }
