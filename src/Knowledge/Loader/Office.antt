-- ===== src/Knowledge/Loader/Office.antt =====
-- internal/knowledge/loader.go: the archives of Office. An archive is the list of its files, and
-- encoding/xml is a parameter that gives a file's tokens, its sheet or its texts.
use cortex_go.Errors.{entry_missing, Error, Result, ok, err}
use cortex_go.Knowledge.Loader.{join}
use cortex_go.Prelude.{
  Bool, ◌&&◌, Option, none, some, List, [], ◌∷◌, ◌++◌, map, reverse, if◌then◌else◌, get_elem?, ℤ,
  Str, bytes, str_eq, has_prefix, trim_space, is_empty, str_lt, sort_by, pos, negsuc,
}

-- What the loop over the tokens of word/document.xml tells apart: a start element `p`, one `t` with
-- what DecodeElement makes of it, any other token, and an error. The end of the list is io.EOF.
pub data DocxToken : Type 0 where
  paragraph other : DocxToken
  text : Result Str → DocxToken
  broken : Error → DocxToken

-- for { t, e := d.Token() ... }: the parts behind the current one
unfoldable pub docx_parts : List DocxToken → Str → Result (List Str)
docx_parts [] cur = ok (if is_empty cur then [] else trim_space cur ∷ [])
docx_parts (paragraph ∷ ts) cur =
    let rest = docx_parts ts [] in
    if is_empty cur
    then rest
    else elim rest [ err e ↦ err e | ok parts ↦ ok (trim_space cur ∷ parts) ]
docx_parts (other ∷ ts) cur = docx_parts ts cur
docx_parts (text (ok v) ∷ ts) cur = docx_parts ts (cur ++ v)
docx_parts (text (err e) ∷ ts) cur = err e
docx_parts (broken e ∷ ts) cur = err e

-- The first file of the name; `open` is f.Open with the decoder.
unfoldable pub find_file : {F : Type 0} → Str → List (Str × F) → Option F
find_file name [] = none
find_file name ((n, f) ∷ fs) =
    let rest = find_file name fs in if str_eq n name then some f else rest

-- loadDOCX
unfoldable pub load_docx : Result (List (Str × Result (List DocxToken))) → Result Str
load_docx (err e) = err e
load_docx (ok files) = elim (find_file (bytes "word/document.xml") files) [
  | none ↦ err (entry_missing (bytes "word/document.xml"))
  | some (err e) ↦ err e
  | some (ok tokens) ↦ elim (docx_parts tokens []) [
    | err e ↦ err e
    | ok parts ↦ ok (join (bytes "\n") parts)
  ]
]

-- xlsxCell
pub record Cell : Type 0 where
  pub kind : Str
  pub value : Str
  pub inline : List Str

-- What encoding/xml makes of the files of an archive: the shared strings, a sheet's rows, a slide's
-- texts. fmt.Sscan(x, &j) gives the number, where there is one.
pub record Sheets (F : Type 0) : Type 0 where
  pub shared : F → Result (List (List Str))
  pub rows : F → Result (List (List Cell))
  pub slide : F → Result (List Str)
  pub scan_int : Str → Option ℤ

unfoldable pub concat : List Str → Str
concat [] = []
concat (s ∷ ss) = s ++ concat ss

unfoldable pub has_suffix : Str → Str → Bool
has_suffix s suffix = has_prefix (reverse s) (reverse suffix)

-- The names of the sheets or slides, which sort.Strings puts in order.
unfoldable pub names_between : {F : Type 0} → Str → List (Str × F) → List Str
names_between prefix [] = []
names_between prefix ((n, f) ∷ fs) =
    let rest = names_between prefix fs in
    if has_prefix n prefix && has_suffix n (bytes ".xml") then n ∷ rest else rest

module _ {F : Type 0} (xml : Sheets F) where
  -- zipXML of a decoder
  unfoldable pub zip_xml : {X : Type 0} → (F → Result X) → List (Str × F) → Str → Result X
  zip_xml decode files name = elim (find_file name files) [
    | none ↦ err (entry_missing name)
    | some f ↦ decode f
  ]

  -- shared[i], of the files that could be opened; without them there are none.
  unfoldable pub shared_strings : List (Str × F) → List Str
  shared_strings files = elim (zip_xml xml.shared files (bytes "xl/sharedStrings.xml")) [
    | err e ↦ []
    | ok items ↦ map concat items
  ]

  -- if _, e := fmt.Sscan(x, &j); e == nil && j >= 0 && j < len(shared) { x = shared[j] }
  unfoldable pub shared_or : List Str → Str → Str
  shared_or shared x = elim (xml.scan_int x) [
    | none ↦ x
    | some (negsuc n) ↦ x
    | some (pos j) ↦ elim (get_elem? shared j) [ none ↦ x | some s ↦ s ]
  ]

  unfoldable pub cell_text : List Str → Cell → Str
  cell_text shared c =
      (if str_eq c.kind (bytes "s") then shared_or shared c.value else c.value) ++ concat c.inline

  unfoldable pub sheet_text : List Str → List (List Cell) → Str
  sheet_text shared rows =
      join (bytes "\n") (map (λ cells. join (bytes "\t") (map (cell_text shared) cells)) rows)

  -- The texts of the sheets or slides, up to one that cannot be decoded.
  unfoldable pub each_text :
      {X : Type 0} → (F → Result X) → (X → Str) → List (Str × F) → List Str → Result (List Str)
  each_text decode show files [] = ok []
  each_text decode show files (n ∷ ns) = elim (zip_xml decode files n) [
    | err e ↦ err e
    | ok x ↦ elim (each_text decode show files ns) [ err e ↦ err e | ok ts ↦ ok (show x ∷ ts) ]
  ]

  -- loadXLSX
  unfoldable pub load_xlsx : Result (List (Str × F)) → Result Str
  load_xlsx (err e) = err e
  load_xlsx (ok files) =
      elim (each_text xml.rows (sheet_text (shared_strings files)) files
        (sort_by str_lt (names_between (bytes "xl/worksheets/sheet") files))) [
          | err e ↦ err e
          | ok ts ↦ ok (join (bytes "\n\n") ts)
        ]

  -- loadPPTX
  unfoldable pub load_pptx : Result (List (Str × F)) → Result Str
  load_pptx (err e) = err e
  load_pptx (ok files) =
      elim (each_text xml.slide (join (bytes " ")) files
        (sort_by str_lt (names_between (bytes "ppt/slides/slide") files))) [
          | err e ↦ err e
          | ok ts ↦ ok (join (bytes "\n") ts)
        ]
