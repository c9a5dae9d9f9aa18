-- ===== src/Tests/Config.antt =====
-- `src/common/config.hpp` on a small file.
use asio_owen.Prelude.{
  true, List, [], ◌∷◌, Option, some, codes, is_space, trim_left, trim_right, has_byte, bytes_eq,
  All, pos, ok, ◌≡◌, refl, Bytes, none,
}
use asio_owen.Config.{Entry, Config, File, find, empty_config, load_lines, load, get_int}
use asio_owen.Config.Entries.{Agrees, load-Agrees}
use asio_owen.Config.Print.{IsPlain, print, set_by, load_lines-print}

abbrev port : Entry
port = record { section = codes "server"; key = codes "port"; value = codes "80" }

abbrev name : Entry
name = record { section = codes "a.b"; key = codes "name"; value = [] }

abbrev entries : List Entry
entries = port ∷ name ∷ []

entries-IsPlain : All IsPlain entries
unfolding trim_left trim_right is_space has_byte
entries-IsPlain = (
  (((refl, refl), refl, refl, refl), (refl, refl)),
  ((((refl, refl), refl, refl, refl), (refl, refl)), tt),
)

load_lines-print_example :
    (d : Config) × (load_lines (codes "old") (print entries) empty_config ≡ (d, true))
    × (d.raw_entries ≡ entries)
    × ((k : Bytes) → find k d.values ≡ set_by k entries none)
load_lines-print_example = load_lines-print (codes "old") entries empty_config entries-IsPlain

-- The second line is malformed.
abbrev files : Option (List File)
files = some (
    record {
      filename = codes "00.ini";
      is_ini = true;
      lines = some (codes "port = 80" ∷ codes "port" ∷ []);
    }
    ∷ [])

load-Agrees_example : Agrees (load files empty_config).0
load-Agrees_example = load-Agrees files empty_config (λ k. refl)

abbrev loaded : Config
loaded = (load_lines [] (print entries) empty_config).0

port_80 : get_int loaded (codes "server") (codes "port") (pos 0) ≡ ok (pos 80)
unfolding get_int bytes_eq load_lines
port_80 = refl
