-- ===== src/Http/StaticTests.antt =====
-- Runs of internal/httpapi/static.go and instances of its theorems.
use go_clipboard.Base.{
  Bool, ◌≡◌, refl, false, Option, none, some, Bytes, ascii, ◌==◌, [], ◌∷◌, if◌then◌else◌,
}
use go_clipboard.Http.{Request, Response, text}
use go_clipboard.Http.ClientIp.{split}
use go_clipboard.Http.Static.{FileSystem, OpenFile, clean_path, served_name, file_exists, index}
use go_clipboard.Http.Static.Clean.{IsValidPath, served_name-IsValidPath}

program : Unit {0}
unfolding ◌==◌ split clean_path served_name file_exists
program = tt

-- The one file is index.html.
abbrev files : Bytes → Option Bytes
files name = if name == index then some (ascii "page") else none

abbrev opened : Option Bytes → Option OpenFile
opened none = none
opened (some content) = some (record { is_dir = some false; content = some content })

abbrev stat_of : Option Bytes → Option Bool
stat_of none = none
stat_of (some content) = some false

abbrev frontend : FileSystem
frontend = record { stat = λ name. stat_of (files name); open_file = λ name. opened (files name) }

climbs : served_name frontend (ascii "/a/../../etc/passwd") ≡ index
unfolding program
climbs = refl

cleaned : clean_path (ascii "//a/./b/../c/") ≡ ascii "a/c"
unfolding program
cleaned = refl

served_name-IsValidPath_example : IsValidPath (served_name frontend (ascii "/../x//y/."))
served_name-IsValidPath_example = served_name-IsValidPath frontend (ascii "/../x//y/.")

abbrev serve_content : Bytes → Bytes → Request → Response
serve_content name content r = record { status = 200; headers = []; body = text (ascii "file") }

abbrev asked : Request
asked = record {
  method = ascii "GET";
  path = ascii "/notes/today";
  escaped = ascii "notes" ∷ ascii "today" ∷ [];
  segments = ascii "notes" ∷ ascii "today" ∷ [];
  remote_addr = [];
  host = [];
  forwarded_for = [];
  body = [];
}
