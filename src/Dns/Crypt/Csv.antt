-- ===== src/Dns/Crypt/Csv.antt =====
-- dns/crypt/srcz/csv.cpp: `csv::parse_line`. The vector of words is the words in front of the current
-- one; the words of an earlier line that it may hold are cleared before they are used, or cut off
-- at the end.
pub mod Written
use cdns.Prelude.{
  ltb, ◌==◌, if◌then◌else◌, Bytes, length, csv_column_long, csv_quote_after_text,
  csv_text_after_quote, csv_unclosed_quote, Result, err, ok, ◌>>=◌, ℕ, Bool, true, false, not, ◌&&◌,
  ◌||◌, List, [], ◌∷◌, ◌++◌,
}

pub record CsvState : Type 0 where
  pub words : List Bytes
  pub word : Bytes
  pub quote_flag : Bool
  pub closing_quote_flag : Bool

abbrev pub csv_start : CsvState
csv_start = record { words = []; word = []; quote_flag = false; closing_quote_flag = false }

-- `push_back`
unfoldable pub csv_push : ℕ → CsvState → Result CsvState
csv_push ch s =
    if ltb 32000 (length s.word)
    then err csv_column_long
    else ok (record s { word = s.word ++ ch ∷ [] })

-- `++i; word_ptr = cur_word (words, i)`
abbrev pub next_column : CsvState → CsvState
next_column s = record s { words = s.words ++ s.word ∷ []; word = [] }

-- At a quotation mark.
unfoldable pub csv_quote : CsvState → Result CsvState
csv_quote s =
    if s.quote_flag
    then ok (record (next_column s) { quote_flag = false; closing_quote_flag = true })
    else if length s.word == 0
    then ok (record s { quote_flag = true })
    else err csv_quote_after_text

-- At a separator.
unfoldable pub csv_separator : CsvState → Result CsvState
csv_separator s =
    if not s.closing_quote_flag
    then ok (next_column s)
    else if length s.word == 0
    then ok (record s { closing_quote_flag = false })
    else err csv_text_after_quote

-- One character: 44 is the separator, 34 the quotation mark, 13 the carriage return.
unfoldable pub csv_step : ℕ → CsvState → Result CsvState
csv_step ch s =
    if (not (ch == 44) && not (ch == 34) && not (ch == 13)) || (ch == 44 && s.quote_flag)
    then csv_push ch s
    else if ch == 34
    then csv_quote s
    else if ch == 44
    then csv_separator s
    else ok s

-- The part behind the loop.
unfoldable pub csv_finish : CsvState → Result (List Bytes)
csv_finish s =
    if s.quote_flag
    then err csv_unclosed_quote
    else if not s.closing_quote_flag && (ltb 0 (length s.words) || ltb 0 (length s.word))
    then ok (s.words ++ s.word ∷ [])
    else ok s.words

-- The loop, to the end of the line: the words, and the text behind the line.
unfoldable pub csv_loop : Bytes → CsvState → Result (List Bytes × Bytes)
csv_loop [] s = csv_finish s >>= λ ws. ok (ws, [])
csv_loop (ch ∷ text) s =
    let done = (csv_finish s >>= λ ws. ok (ws, text)) in
    let more = (csv_step ch s >>= λ t. csv_loop text t) in if ch == 10 then done else more

abbrev pub parse_line : Bytes → Result (List Bytes × Bytes)
parse_line text = csv_loop text csv_start
