-- ===== src/Knowledge/Loader/Programs.antt =====
-- internal/knowledge/loader.go: the formats that other programs read. What they do is a parameter.
use cortex_go.Knowledge.Loader.{join}
use cortex_go.Errors.{
  converted_missing, no_pages, convert_failed, ocr_required, soffice_required, ocr_failed,
  command_failed, render_failed, Result, Error, ok, err,
}
use cortex_go.Prelude.{
  ℕ, ◌-◌, Bool, Option, none, some, List, [], ◌∷◌, ◌++◌, ltb, if◌then◌else◌, length, take, Str,
  bytes, trim_space, is_empty, sort_by, extension, base,
}

-- exec.LookPath, os.MkdirTemp, exec.Command with its output, filepath.Glob, os.ReadFile and the
-- number that strconv.Atoi reads, or 0.
pub record Programs : Type 0 where
  pub look_path : Str → Result Str
  pub make_temp : Result Str
  pub run : Str → List Str → Str × Option Error
  pub output : Str → List Str → Result Str
  pub glob : Str → Result (List Str)
  pub read_file : Str → Result Str
  pub page_number : Str → ℕ
  pub language : Str

-- ledongthuc/pdf: the text and the error of reading it, or an error before.
abbrev pub PdfText : Type 0
PdfText = Result (Str × Option Error)

-- runCommand
unfoldable pub run_command : Programs → Str → List Str → Option Error
run_command x name arguments = elim (x.run name arguments).1 [
  | none ↦ none
  | some e ↦
      if is_empty (trim_space (x.run name arguments).0)
      then some e
      else some (command_failed e (trim_space (x.run name arguments).0))
]

-- if lang == "" { lang = "eng" }
abbrev pub ocr_language : Programs → Str
ocr_language x = if is_empty x.language then bytes "eng" else x.language

-- The pages' texts that are not blank, up to one that fails.
unfoldable pub ocr_pages : Programs → List Str → Result (List Str)
ocr_pages x [] = ok []
ocr_pages x (page ∷ pages) =
    elim (x.output (bytes "tesseract") (page ∷ bytes "stdout" ∷ bytes "-l" ∷ ocr_language x ∷ [])) [
      | err e ↦ err (ocr_failed (base page) e)
      | ok s ↦ elim (ocr_pages x pages) [
        | err e ↦ err e
        | ok texts ↦ ok (if is_empty (trim_space s) then texts else trim_space s ∷ texts)
      ]
    ]

abbrev pub page_before : Programs → Str → Str → Bool
page_before x p q = ltb (x.page_number p) (x.page_number q)

unfoldable pub ocr_in : Programs → Str → Str → Result Str
ocr_in x dir path =
    let prefix = dir ++ bytes "/page" in
    elim (run_command x (bytes "pdftoppm") (bytes "-png" ∷ path ∷ prefix ∷ [])) [
      | some e ↦ err (render_failed e)
      | none ↦ elim (x.glob (prefix ++ bytes "-*.png")) [
        | err e ↦ err no_pages
        | ok [] ↦ err no_pages
        | ok (page ∷ pages) ↦ elim (ocr_pages x (sort_by (page_before x) (page ∷ pages))) [
          | err e ↦ err e
          | ok texts ↦ ok (join (bytes "\n\n") texts)
        ]
      ]
    ]

-- loadPDFOCR
unfoldable pub load_pdf_ocr : Programs → Str → Result Str
load_pdf_ocr x path = elim (x.look_path (bytes "pdftoppm")) [
  | err e ↦ err ocr_required
  | ok p ↦ elim (x.look_path (bytes "tesseract")) [
    | err e ↦ err ocr_required
    | ok q ↦ elim x.make_temp [ err e ↦ err e | ok dir ↦ ocr_in x dir path ]
  ]
]

-- loadPDF
unfoldable pub load_pdf : Programs → (Str → PdfText) → Str → Result Str
load_pdf x read path = elim (read path) [
  | err e ↦ err e
  | ok (s, some e) ↦ err e
  | ok (s, none) ↦ if is_empty (trim_space s) then load_pdf_ocr x path else ok (trim_space s)
]

-- strings.TrimSuffix(filepath.Base(path), filepath.Ext(path)), with the new extension
abbrev pub converted_name : Str → Str
converted_name path =
    take (length (base path) - length (extension path)) (base path) ++ bytes ".txt"

-- loadLegacyOffice
unfoldable pub load_legacy_office : Programs → Str → Result Str
load_legacy_office x path = elim (x.look_path (bytes "soffice")) [
  | err e ↦ err soffice_required
  | ok soffice ↦ elim x.make_temp [
    | err e ↦ err e
    | ok dir ↦
        elim (run_command x soffice (
          bytes "--headless"
          ∷ bytes "--convert-to"
          ∷ bytes "txt:Text"
          ∷ bytes "--outdir"
          ∷ dir
          ∷ path
          ∷ [])) [
            | some e ↦ err (convert_failed e)
            | none ↦ elim (x.read_file (dir ++ (b'/' ∷ converted_name path))) [
              | err e ↦ err (converted_missing e)
              | ok s ↦ ok (trim_space s)
            ]
          ]
  ]
]
