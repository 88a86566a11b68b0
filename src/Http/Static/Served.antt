-- ===== src/Http/Static/Served.antt =====
-- internal/httpapi/static.go: what is served for a path.
use go_clipboard.Base.{◌≡◌, false, Bytes, [], Option, none, some}
use go_clipboard.Http.{Request, Response}
use go_clipboard.Http.ClientIp.{split}
use go_clipboard.Http.Static.{FileSystem, slash, index, file_exists, last_segment}

-- The file system holds exactly these regular files, all of them readable.
pub record IsFiles (fsys : FileSystem) (files : Bytes → Option Bytes) : Type 0 where
  pub root : files [] ≡ none
  pub stat_lem : (name content : Bytes) → files name ≡ some content → fsys.stat name ≡ some false
  pub open_lem :
      (name content : Bytes)
      → files name ≡ some content
      → fsys.open_file name ≡ some (record { is_dir = some false; content = some content })
  pub absent : (name : Bytes) → files name ≡ none → file_exists fsys name ≡ false

module _ (serve_content : Bytes → Bytes → Request → Response) (fsys : FileSystem)
    (files : Bytes → Option Bytes) (law : IsFiles fsys files) where
  -- The content of a path: of the file at it, and else of index.html.
  abbrev pub content_for : Option Bytes → Bytes → Bytes → Request → Response
  content_for (some content) name page r = serve_content (last_segment (split slash name)) content r
  content_for none name page r = serve_content index page r
