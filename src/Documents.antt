-- ===== src/Documents.antt =====
-- app/documents.py. The parsers of the file formats are parameters.
use decyra_api.Common.{
  ℕ, ◌*◌, Bool, false, not, ◌&&◌, ◌||◌, Option, none, some, List, [], ◌∷◌, ◌++◌, ◌==◌, nat_eq,
  list_eq, contains, if◌then◌else◌, keep_if, take, length, ltb, leb,
}
use decyra_api.Common.Text.{Text, codes, is_blank, starts_with}
use decyra_api.Common.Codec.{decode_utf8, decode_cp1252}
use decyra_api.Chat.{strip}

abbrev pub Bytes : Type 0
Bytes = List ℕ

abbrev pub pdf_mime : Text
pdf_mime = codes "application/pdf"

abbrev pub docx_mime : Text
docx_mime = codes "application/vnd.openxmlformats-officedocument.wordprocessingml.document"

abbrev pub xlsx_mime : Text
xlsx_mime = codes "application/vnd.openxmlformats-officedocument.spreadsheetml.sheet"

abbrev pub txt_mime : Text
txt_mime = codes "text/plain"

abbrev pub max_filename_length : ℕ
max_filename_length = 255

-- `filetype.guess`, the names of a ZIP archive with the decoded `[Content_Types].xml` (`none` where
-- the archive cannot be read), and the text of a PDF, DOCX or XLSX file.
pub record Parsers : Type 0 where
  pub guess : Bytes → Option Text
  pub zip : Bytes → Option (List Text × Text)
  pub pdf_text : Bytes → Option Text
  pub docx_text : Bytes → Option Text
  pub xlsx_text : Bytes → Option Text

-- What the operations raise.
pub data DocError : Type 0 where
  unsupported_type unicode_error extraction_error : DocError

pub data Read (A : Type 0) : Type 0 where
  read : A → Read A
  refused : DocError → Read A

abbrev option_is : Text → Option Text → Bool
option_is t none = false
option_is t (some s) = s == t

-- `needle in text`
unfoldable pub is_infix : Text → Text → Bool
unfolding starts_with
is_infix needle [] = starts_with needle []
is_infix needle (c ∷ s) = starts_with needle (c ∷ s) || is_infix needle s

is_zip : Bytes → Bool
is_zip (x ∷ y ∷ _) = x == b'P' && y == b'K'
is_zip _ = false

-- `_TEXT_WHITESPACE` and the control characters that are not in it
is_control : ℕ → Bool
is_control b = ltb b 0x20 && not (contains (9 ∷ 10 ∷ 13 ∷ 12 ∷ 11 ∷ []) b)

unfoldable pub controls : Bytes → ℕ
unfolding is_control
controls data_bytes = length (keep_if is_control data_bytes)

decode_any : Bytes → Read Text
decode_any bytes = elim (decode_utf8 bytes) [
  | some text ↦ read text
  | none ↦ elim (decode_cp1252 bytes) [ none ↦ refused unicode_error | some text ↦ read text ]
]

-- `_decode_text`. More than a tenth of control characters is binary; a byte that is neither UTF-8 nor
-- in cp1252 raises `UnicodeDecodeError`.
unfoldable pub decode_text : Bytes → Read Text
unfolding controls decode_any
decode_text bytes =
    if contains bytes 0
    then refused unsupported_type
    else if ltb (length bytes) (10 * controls bytes)
    then refused unsupported_type
    else decode_any bytes

module _ (p : Parsers) where
  -- `_is_real_docx` and `_is_real_xlsx` differ in the part and in the marker.
  unfoldable pub is_real : Text → Text → Bytes → Bool
  unfolding is_zip is_infix
  is_real part marker bytes = if not (is_zip bytes) then false else elim (p.zip bytes) [
    | none ↦ false
    | some (names, content_types) ↦
        contains names part
        && contains names (codes "[Content_Types].xml")
        && is_infix marker content_types
  ]

  abbrev pub is_real_docx : Bytes → Bool
  is_real_docx = is_real (codes "word/document.xml") (codes "wordprocessingml.document")

  abbrev pub is_real_xlsx : Bytes → Bool
  is_real_xlsx = is_real (codes "xl/workbook.xml") (codes "spreadsheetml")

  -- `sniff_mime`
  unfoldable pub sniff_mime : Bytes → Read Text
  unfolding is_real decode_text
  sniff_mime bytes =
      if option_is pdf_mime (p.guess bytes)
      then read pdf_mime
      else if is_real_xlsx bytes
      then read xlsx_mime
      else if is_real_docx bytes
      then read docx_mime
      else elim (p.guess bytes) [
        | none ↦ elim (decode_text bytes) [ refused e ↦ refused e | read _ ↦ read txt_mime ]
        | some _ ↦ refused unsupported_type
      ]

  parsed : Text → Bytes → Option Text
  unfolding decode_text
  parsed mime bytes =
      if mime == pdf_mime
      then p.pdf_text bytes
      else if mime == docx_mime
      then p.docx_text bytes
      else if mime == xlsx_mime
      then p.xlsx_text bytes
      else elim (decode_text bytes) [ refused e ↦ none | read text ↦ some text ]

  -- `extract_text`: every exception of a parser becomes `ExtractionError`.
  unfoldable pub extract_text : Text → Bytes → Read (Text × Text)
  unfolding parsed
  extract_text mime bytes = elim (parsed mime bytes) [
    | none ↦ refused extraction_error
    | some text ↦ read (text, if is_blank text then codes "no_text" else codes "ok")
  ]

-- `enforce_extract_cap`: whether it raises `TooLargeExtract`.
unfoldable pub exceeds_cap : Text → ℕ → Bool
exceeds_cap text max_chars = ltb max_chars (length text)

-- `.replace("\\", "/").split("/")[-1]`
last_part : Text → Text → Text
last_part cur [] = cur
last_part cur (c ∷ s) = last_part (if c == b'/' || c == b'\\' then [] else cur ++ c ∷ []) s

abbrev or_document : Text → Text
or_document [] = codes "document"
or_document (c ∷ s) = c ∷ s

abbrev given : Option Text → Text
given none = codes "document"
given (some name) = or_document name

unfoldable pub sanitize_filename : Option Text → Text
unfolding last_part strip
sanitize_filename name =
    take max_filename_length
      (or_document (strip (keep_if (λ c. not (leb c 0x1f)) (last_part [] (given name)))))
