-- ===== src/Config/Store.antt =====
-- The namespace `ConfigUtils` of config_manager.cpp on files, and the two methods that do nothing.
use zero_trust_secure_sessio.Common.{
  ◌≡◌, ◌⊎◌, inl, inr, Bool, not, ◌&&◌, String, none, some, arith, string_eq, ◌==◌, if◌then◌else◌,
  lookup, insert, has_key, lookup-insert,
}
use zero_trust_secure_sessio.Config.{Json, ConfigManager, ConfigResult, success}
use zero_trust_secure_sessio.Config.Files.{Disk, Platform}

pub data FileError : Type 0 where
  file_open_failed file_read_failed file_write_open_failed : String → FileError

-- What the system does beyond opening a file: which names are directories, whose size is an error,
-- and what it keeps of a text that is written. The library does not say when it keeps less.
pub record System : Type 0 where
  pub platform : Platform
  pub is_directory : String → Bool
  pub keeps : String → String

unfoldable pub file_exists : Disk → String → Bool
file_exists disk file = has_key file disk

unfoldable pub read_file : System → Disk → String → FileError ⊎ String
read_file sys disk file =
    if not (sys.platform.is_readable file)
    then inl (file_open_failed file)
    else if sys.is_directory file
    then inl (file_read_failed file)
    else elim (lookup file disk) [ none ↦ inl (file_open_failed file) | some content ↦ inr content ]

-- Neither the output nor the closing of the stream reports an error.
unfoldable pub write_file : System → Disk → String → String → Disk × (FileError ⊎ Unit {0})
write_file sys disk file content =
    if not (sys.platform.is_writable file)
    then (disk, inl (file_write_open_failed file))
    else (insert file (sys.keeps content) disk, inr tt)

unfoldable pub reload_config :
    (lib : Json) → ConfigManager lib → ConfigManager lib × ConfigResult (Unit {0})
reload_config lib m = (m, success tt)

unfoldable pub load_from_environment : (lib : Json) → ConfigManager lib → ConfigManager lib
load_from_environment lib m = m

-- What a file that can be read gives after a write: what the system kept of the content, if the
-- write opened the file, and else what it gave before. A write is reported as a success whatever
-- was kept. The other files stay.
pub read_file-write_file :
    (sys : System) (disk : Disk) (file other content : String)
    → (read_file sys (write_file sys disk file content).0 other ≡ (
        if sys.platform.is_writable file
          && (file == other)
          && sys.platform.is_readable other
          && not (sys.is_directory other)
        then inr (sys.keeps content)
        else read_file sys disk other))
      × ((write_file sys disk file content).1
          ≡ (if sys.platform.is_writable file then inr tt else inl (file_write_open_failed file)))
unfolding read_file write_file
read_file-write_file sys disk file other content =
    ground (arith, lookup-insert file other (sys.keeps content) disk)
