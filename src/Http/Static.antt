-- ===== src/Http/Static.antt =====
-- internal/httpapi/static.go: the files of the frontend, with index.html for every other path.
-- path.Clean is modelled for the rooted paths that it is called with, by segments. What a file system
-- answers, and what http.ServeContent writes, are parameters.
pub mod Clean
pub mod Served
use go_clipboard.Base.{
  ℕ, Bool, true, false, not, ◌&&◌, ◌||◌, Bytes, ascii, ◌==◌, List, [], ◌∷◌, ◌++◌, Option, none,
  some, if◌then◌else◌,
}
use go_clipboard.Http.{Request, Response, allow, write_error, handle_not_found}
use go_clipboard.Http.ClientIp.{split}

-- An open file: what Stat says of it (whether it is a directory), and what it holds: nothing if it
-- cannot seek and cannot be read whole either.
pub record OpenFile : Type 0 where
  pub is_dir : Option Bool
  pub content : Option Bytes

-- fs.Stat, which says whether a name is a directory, and Open.
pub record FileSystem : Type 0 where
  pub stat : Bytes → Option Bool
  pub open_file : Bytes → Option OpenFile

abbrev pub slash : ℕ
slash = 47

-- One segment of a rooted path, with the segments before it, the last one first.
unfoldable pub clean_segment : Bytes → List Bytes → List Bytes
clean_segment part kept =
    if part == [] || part == ascii "."
    then kept
    else if part == ascii ".."
    then (elim kept [ [] ↦ [] | last ∷ others ↦ others ])
    else part ∷ kept

unfoldable pub clean_segments : List Bytes → List Bytes → List Bytes
unfolding clean_segment
clean_segments [] kept = kept
clean_segments (part ∷ parts) kept = clean_segments parts (clean_segment part kept)

-- The segments, the last one first, joined by slashes.
unfoldable pub join_back : List Bytes → Bytes
join_back [] = []
join_back (part ∷ []) = part
join_back (part ∷ before ∷ others) = join_back (before ∷ others) ++ (slash ∷ part)

-- path.Clean("/" + p) without the slash at its start: empty for the root.
unfoldable pub clean_path : Bytes → Bytes
unfolding clean_segments join_back split
clean_path p = join_back (clean_segments (split slash p) [])

abbrev pub index : Bytes
index = ascii "index.html"

unfoldable pub file_exists : FileSystem → Bytes → Bool
file_exists fsys name = elim (fsys.stat name) [ none ↦ false | some is_dir ↦ not is_dir ]

-- The name of the file that is served for a path.
unfoldable pub served_name : FileSystem → Bytes → Bytes
unfolding clean_path file_exists
served_name fsys p =
    let name = clean_path p in
    if name == [] then index else if file_exists fsys name then name else index

-- path.Base of a clean name.
unfoldable pub last_segment : List Bytes → Bytes
last_segment [] = []
last_segment (part ∷ []) = part
last_segment (part ∷ next ∷ parts) = last_segment (next ∷ parts)

-- http.ServeContent, for a name, the content and the request.
module _ (serve_content : Bytes → Bytes → Request → Response) (fsys : FileSystem) where
  unfoldable pub serve_open : Request → Bytes → OpenFile → Response
  unfolding last_segment split handle_not_found
  serve_open r name f = elim f.is_dir [
    | none ↦ handle_not_found
    | some is_dir ↦ if is_dir then handle_not_found else (elim f.content [
      | none ↦ handle_not_found
      | some content ↦ serve_content (last_segment (split slash name)) content r
    ])
  ]

  unfoldable pub serve_file : Request → Bytes → Response
  unfolding serve_open handle_not_found
  serve_file r name = elim (fsys.open_file name) [
    | none ↦ handle_not_found
    | some f ↦ serve_open r name f
  ]

  unfoldable pub spa_file_server : Request → Response
  unfolding serve_file served_name write_error
  spa_file_server r =
      if not (r.method == ascii "GET") && not (r.method == ascii "HEAD")
      then (let resp = write_error 405 "method_not_allowed" "method not allowed" in
          record resp { headers = allow (ascii "GET" ∷ ascii "HEAD" ∷ []) ∷ resp.headers })
      else serve_file r (served_name fsys r.path)
