-- ===== src/Knowledge/Loader.antt =====
-- internal/knowledge/loader.go: `FileLoader`. Files, archives, PDF and XML decoders, other programs and
-- regular expressions are parameters; the children are the formats.
pub mod Office
pub mod Programs
use cortex_go.Errors.{
  file_empty, parse_failed, file_path_required, unsupported_extension, Result, ok, err,
}
use cortex_go.Knowledge.{Document}
use cortex_go.Prelude.{
  Bool, true, false, not, ◌||◌, some, List, [], ◌∷◌, ◌++◌, if◌then◌else◌, Str, bytes, str_eq,
  trim_space, is_empty, extension, base,
}

-- What `Load` calls: os.ReadFile, the tags that the pattern finds replaced by spaces,
-- html.UnescapeString, strings.Fields, strings.ToLower, and the loaders of the other formats.
pub record Formats : Type 0 where
  pub read_file : Str → Result Str
  pub replace_tags : Str → Str
  pub unescape : Str → Str
  pub fields : Str → List Str
  pub lower : Str → Str
  pub pdf : Str → Result Str
  pub docx : Str → Result Str
  pub xlsx : Str → Result Str
  pub pptx : Str → Result Str
  pub legacy : Str → Result Str

-- strings.Join
unfoldable pub join : Str → List Str → Str
join sep [] = []
join sep (s ∷ ss) = elim ss [ [] ↦ s | t ∷ ts ↦ s ++ sep ++ join sep ss ]

-- stripHTML
unfoldable pub strip_html : Formats → Str → Str
strip_html f content = join (bytes " ") (f.fields (f.unescape (f.replace_tags content)))

unfoldable pub load_html : Formats → Str → Result Str
load_html f path = elim (f.read_file path) [ err e ↦ err e | ok s ↦ ok (strip_html f s) ]

pub data Format : Type 0 where
  plain html pdf docx xlsx pptx legacy unsupported : Format

abbrev pub is_one_of : Str → List Str → Bool
is_one_of s [] = false
is_one_of s (t ∷ ts) = str_eq s t || is_one_of s ts

-- switch strings.ToLower(ext)
unfoldable pub format_of : Str → Format
format_of ext =
    if is_one_of ext (bytes ".txt" ∷ bytes ".md" ∷ bytes ".markdown" ∷ [])
    then plain
    else if is_one_of ext (bytes ".html" ∷ bytes ".htm" ∷ [])
    then html
    else if is_one_of ext (bytes ".pdf" ∷ [])
    then pdf
    else if is_one_of ext (bytes ".docx" ∷ [])
    then docx
    else if is_one_of ext (bytes ".xlsx" ∷ [])
    then xlsx
    else if is_one_of ext (bytes ".pptx" ∷ [])
    then pptx
    else if is_one_of ext (bytes ".doc" ∷ bytes ".xls" ∷ bytes ".ppt" ∷ [])
    then legacy
    else unsupported

unfoldable pub load_format : Formats → Format → Str → Result Str
load_format f plain path = f.read_file path
load_format f html path = load_html f path
load_format f pdf path = f.pdf path
load_format f docx path = f.docx path
load_format f xlsx path = f.xlsx path
load_format f pptx path = f.pptx path
load_format f legacy path = f.legacy path
load_format f unsupported path = err (unsupported_extension (extension path))

abbrev pub is_supported : Format → Bool
is_supported unsupported = false
is_supported _ = true

unfoldable pub document_of : Formats → Str → Str → Document
document_of f path content = record {
  id = path;
  title = base path;
  content = content;
  metadata = some ((bytes "source", path) ∷ (bytes "extension", f.lower (extension path)) ∷ []);
}

-- The content, with the error of a format that is supported wrapped.
unfoldable pub parsed_content : Formats → Str → Result Str
parsed_content f path =
    let format = format_of (f.lower (extension path)) in
    if not (is_supported format)
    then err (unsupported_extension (extension path))
    else elim (load_format f format path) [
      | err e ↦ err (parse_failed (extension path) e)
      | ok s ↦ ok s
    ]

-- Load
unfoldable pub load : Formats → Str → Result Document
load f path =
    if is_empty (trim_space path) then err file_path_required else elim (parsed_content f path) [
      | err e ↦ err e
      | ok content ↦
          if is_empty (trim_space content) then err file_empty else ok (document_of f path content)
    ]
