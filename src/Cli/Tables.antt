-- ===== src/Cli/Tables.antt =====
-- `print_table` of cli_interface.cpp: the lines of a table.
use Prim.Native.String.{◌++◌ as ◌<>◌}
use zero_trust_secure_sessio.Common.{
  ℕ, zero, suc, ◌-◌, List, [], ◌∷◌, ◌++◌, map, String, ltb, if◌then◌else◌, length, codes,
}

abbrev pub Row : Type 0
Row = List String

abbrev pub size : String → ℕ
size s = length (codes s)

-- A character so many times, as the fill of "{:<{}}" and the line under the headers.
abbrev pub repeated : String → ℕ → String
repeated c zero = ""
repeated c (suc n) = c <> repeated c n

abbrev pub padded : String → ℕ → String
padded s width = s <> repeated " " (width - size s)

abbrev pub max : ℕ → ℕ → ℕ
max a b = if ltb a b then b else a

-- The widths of the columns after a row.
unfoldable pub widen : List ℕ → Row → List ℕ
widen [] row = []
widen (w ∷ widths) [] = w ∷ widths
widen (w ∷ widths) (cell ∷ row) = max w (size cell) ∷ widen widths row

unfoldable pub widen_all : List ℕ → List Row → List ℕ
widen_all widths [] = widths
widen_all widths (row ∷ rows) = widen_all (widen widths row) rows

abbrev pub column_widths : List Row → Row → List ℕ
column_widths data_rows headers = widen_all (map size headers) data_rows

abbrev pub separated : String → Row → String → String
separated mark [] s = s
separated mark (cell ∷ row) s = s <> mark

-- One line of cells, in the columns that there are.
unfoldable pub row_text : Row → List ℕ → String
row_text [] widths = ""
row_text (cell ∷ row) [] = ""
row_text (cell ∷ row) (w ∷ widths) = separated " | " row (padded cell w) <> row_text row widths

-- The line under the headers.
unfoldable pub rule_text : Row → List ℕ → String
rule_text [] widths = ""
rule_text (cell ∷ row) [] = ""
rule_text (cell ∷ row) (w ∷ widths) = separated "-+-" row (repeated "-" w) <> rule_text row widths

abbrev pub header_lines : Row → List ℕ → List String
header_lines [] widths = []
header_lines (h ∷ headers) widths =
    row_text (h ∷ headers) widths ∷ rule_text (h ∷ headers) widths ∷ []

abbrev pub row_lines : List ℕ → List Row → List String
row_lines widths rows = map (λ row. row_text row widths) rows

unfoldable pub table_lines : List Row → Row → List String
unfolding widen_all widen row_text rule_text
table_lines data_rows headers =
    let widths = column_widths data_rows headers in
    header_lines headers widths ++ row_lines widths data_rows
