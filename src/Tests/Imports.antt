-- ===== src/Tests/Imports.antt =====
-- A version store and an importer with one job.
use cortex_go.Knowledge.Loader.Office.{docx_parts, find_file, load_docx, paragraph, other, text}
use cortex_go.Knowledge.Loader.{
  format_of, load_format, parsed_content, document_of, Formats, load, join,
}
use cortex_go.Errors.{Result, external, ok, out_of_fuel, err, Error}
use cortex_go.Knowledge.Importer.{
  run, ImportStatus, started, loading, queued_import, more, Worker, job_id, with_status, update_job,
  import_document, advance, Advances, submit, Advance, new_importer, Reachable, Importer, ending,
  here, submitted,
}
use cortex_go.Knowledge.Versions.{
  DocumentVersion, version_name, last_version, same_version, next_version, add_version,
  list_versions,
}
use cortex_go.Knowledge.Runes.{digits_back, decimal}
use cortex_go.Knowledge.Importer.Settled.{Reachable-settles, AllDone, work}
use cortex_go.Knowledge.Versions.Numbered.{add_all-IsHistory, add_all, IsHistory}
use cortex_go.Knowledge.{Document}
use cortex_go.Prelude.{
  ℕ, ◌+◌, ◌<◌, ◌≡◌, refl, ◌↔◌, ◌⊎◌, Option, none, List, [], ◌∷◌, ◌++◌, map, Str, bytes, str_eq,
  decode_rune, runes_from, runes, is_space, all_space, is_blank, trim_left, trim_right, trim_space,
  lookup, put, trim_slashes, from_last, has_slash, extension, last_part, base,
}

program : Unit {0}
unfolding new_importer submit advance import_document update_job with_status job_id decimal
    digits_back list_versions add_version next_version same_version last_version version_name
    add_all lookup put str_eq
program = tt

abbrev note : Str → Document
note s = record { id = bytes "n"; title = []; content = s; metadata = none }

-- The text is its own hash.
abbrev same_text : Str → Str
same_text s = s

abbrev edits : List (ℕ × Document)
edits = (1, note (bytes "a")) ∷ (2, note (bytes "a")) ∷ (3, note (bytes "b")) ∷ []

two_versions :
    map
      (λ (v : DocumentVersion). v.version)
      (list_versions (add_all same_text [] edits) (bytes "n"))
    ≡ bytes "v1" ∷ bytes "v2" ∷ []
unfolding program
two_versions = refl

add_all-IsHistory_example :
    IsHistory same_text (bytes "n") 0 none (list_versions (add_all same_text [] edits) (bytes "n"))
add_all-IsHistory_example = add_all-IsHistory same_text edits (bytes "n")

-- An index that keeps the documents.
abbrev keep : List Document → Document → Option Error × List Document
keep index d = (none, d ∷ index)

abbrev empty : Importer (List Document)
empty = new_importer []

abbrev waiting : Importer (List Document)
waiting = submit same_text keep 7 (bytes "p") empty

waiting-Reachable : Reachable same_text keep [] waiting
waiting-Reachable = submitted 7 (bytes "p") here

-- Its goroutine has begun, and the document is loaded and in the index.
abbrev loaded : Importer (List Document)
loaded = record waiting {
  jobs =
      (
        bytes "job-7",
        record (queued_import (bytes "job-7") (bytes "p")) { status = ImportStatus.running },
      )
      ∷ [];
  versions =
      (
        bytes "n",
        record {
          document_id = bytes "n";
          version = bytes "v1";
          hash = bytes "a";
          created_at = 8;
          document = note (bytes "a");
        }
            ∷ [],
      )
      ∷ [];
  index = note (bytes "a") ∷ [];
  workers = record { id = bytes "job-7"; path = bytes "p"; phase = ending none } ∷ [];
}

abbrev begun : Importer (List Document)
begun = record waiting {
  jobs = loaded.jobs;
  workers = record { id = bytes "job-7"; path = bytes "p"; phase = loading } ∷ [];
}

abbrev first_worker : Worker
first_worker = record { id = bytes "job-7"; path = bytes "p"; phase = started }

waiting-Advances : Advances same_text keep waiting 2 loaded
unfolding program
waiting-Advances =
    more (more Advances.stop (run {s' = begun} [] first_worker [] 0 (err out_of_fuel) refl refl)) (
      run {s' = loaded} [] (record first_worker { phase = loading }) [] 8 (ok (note (bytes "a")))
        refl refl)

Reachable-settles_example :
    (2 + work loaded.workers ≡ work waiting.workers)
    × (0 < work loaded.workers ↔ ((u : Importer (List Document)) × Advance same_text keep loaded u))
    × ((0 < work loaded.workers) ⊎ AllDone same_text keep loaded)
Reachable-settles_example =
    Reachable-settles same_text keep [] waiting loaded 2 waiting-Reachable waiting-Advances

abbrev nowhere : Str → Result Str
nowhere path = err (external 1)

-- A disk on which every file holds "hi".
abbrev disk : Formats
disk = record {
  read_file = λ path. ok (bytes "hi");
  replace_tags = λ s. s;
  unescape = λ s. s;
  fields = λ s. s ∷ [];
  lower = λ s. s;
  pdf = nowhere;
  docx = nowhere;
  xlsx = nowhere;
  pptx = nowhere;
  legacy = nowhere;
}

abbrev hi : Document
hi = document_of disk (bytes "a/b.md") (bytes "hi")

titled : hi.title ≡ bytes "b.md"
unfolding document_of base last_part trim_slashes from_last
titled = refl

read_hi : load disk (bytes "a/b.md") ≡ ok hi
unfolding program load parsed_content load_format format_of extension from_last has_slash trim_space
    trim_left trim_right runes runes_from decode_rune is_space all_space is_blank
read_hi = refl

-- Two paragraphs, of which the first has two runs of text.
two_paragraphs :
    load_docx (
      ok (
        (
          bytes "word/document.xml",
          ok (
              paragraph
              ∷ text (ok (bytes "a "))
              ∷ text (ok (bytes "b "))
              ∷ paragraph
              ∷ other
              ∷ text (ok (bytes "c"))
              ∷ []),
        )
        ∷ []))
    ≡ ok (bytes "a b" ++ (10 ∷ bytes "c"))
unfolding program load_docx find_file docx_parts join trim_space trim_left trim_right runes
    runes_from decode_rune is_space all_space is_blank
two_paragraphs = refl
