-- ===== src/Cli/Columns.antt =====
-- The columns of a table that `print_table` of cli_interface.cpp prints.
use Prim.Native.String.{◌++◌ as ◌<>◌}
use text.Mathlib.TextLemmas.{nil-append, cons-append}
use zero_trust_secure_sessio.Common.{
  ℕ, zero, suc, ◌+◌, ◌-◌, ◌≤◌, ◌≡◌, refl, ap, false, true, List, [], ◌∷◌, ◌++◌, map, String, arith,
  All, length,
}
use zero_trust_secure_sessio.Cli.Tables.{
  Row, size, repeated, padded, widen, widen_all, column_widths, row_text, rule_text, row_lines,
  header_lines, table_lines,
}

pub size-append : (s t : String) → size (s <> t) ≡ size s + size t
size-append String.[] t = rw (nil-append t) (omega arith)
size-append (String.◌∷◌ c s) t = rw (cons-append c s t) (omega (arith, size-append s t))

-- A row with a cell for each column, none wider than its column.
abbrev Fits : Row → List ℕ → Type 0
Fits [] [] = Unit
Fits [] (w ∷ widths) = false ≡ true
Fits (cell ∷ row) [] = false ≡ true
Fits (cell ∷ row) (w ∷ widths) = (size cell ≤ w) × Fits row widths

-- The columns with three characters between them.
abbrev pub line_width : List ℕ → ℕ
line_width [] = 0
line_width (w ∷ []) = w
line_width (w ∷ v ∷ widths) = w + 3 + line_width (v ∷ widths)

size-repeated : (c : String) (n : ℕ) → size c ≡ 1 → size (repeated c n) ≡ n
size-repeated c zero h = refl
size-repeated c (suc n) h = omega (arith, size-append c (repeated c n), size-repeated c n h, h)

size-padded : (s : String) (w : ℕ) → size s ≤ w → size (padded s w) ≡ w
size-padded s w h =
    omega (arith, size-append s (repeated " " (w - size s)), size-repeated " " (w - size s) refl)

size-row_text :
    (row : Row) (widths : List ℕ) → Fits row widths → size (row_text row widths) ≡ line_width widths
unfolding row_text
size-row_text [] [] h = refl
size-row_text [] (w ∷ widths) h = absurd (ground (arith, h))
size-row_text (cell ∷ row) [] h = absurd (ground (arith, h))
size-row_text (cell ∷ []) (w ∷ []) (h, k) =
    omega (arith, size-append (padded cell w) "", size-padded cell w h)
size-row_text (cell ∷ []) (w ∷ v ∷ widths) (h, k) = absurd (ground (arith, k))
size-row_text (cell ∷ other ∷ row) (w ∷ []) (h, k) = absurd (ground (arith, k))
size-row_text (cell ∷ other ∷ row) (w ∷ v ∷ widths) (h, k) = omega (
  arith,
  size-append (padded cell w <> " | ") (row_text (other ∷ row) (v ∷ widths)),
  size-append (padded cell w) " | ",
  size-padded cell w h,
  size-row_text (other ∷ row) (v ∷ widths) k,
)

size-rule_text :
    (row : Row) (widths : List ℕ)
    → Fits row widths
    → size (rule_text row widths) ≡ line_width widths
unfolding rule_text
size-rule_text [] [] h = refl
size-rule_text [] (w ∷ widths) h = absurd (ground (arith, h))
size-rule_text (cell ∷ row) [] h = absurd (ground (arith, h))
size-rule_text (cell ∷ []) (w ∷ []) (h, k) =
    omega (arith, size-append (repeated "-" w) "", size-repeated "-" w refl)
size-rule_text (cell ∷ []) (w ∷ v ∷ widths) (h, k) = absurd (ground (arith, k))
size-rule_text (cell ∷ other ∷ row) (w ∷ []) (h, k) = absurd (ground (arith, k))
size-rule_text (cell ∷ other ∷ row) (w ∷ v ∷ widths) (h, k) = omega (
  arith,
  size-append (repeated "-" w <> "-+-") (rule_text (other ∷ row) (v ∷ widths)),
  size-append (repeated "-" w) "-+-",
  size-repeated "-" w refl,
  size-rule_text (other ∷ row) (v ∷ widths) k,
)

Fits-map : (headers : Row) → Fits headers (map size headers)
Fits-map [] = tt
Fits-map (h ∷ headers) = (omega arith, Fits-map headers)

Fits-widen : (row other : Row) (widths : List ℕ) → Fits row widths → Fits row (widen widths other)
unfolding widen
Fits-widen [] other [] h = tt
Fits-widen [] other (w ∷ widths) h = absurd (ground (arith, h))
Fits-widen (cell ∷ row) other [] h = absurd (ground (arith, h))
Fits-widen (cell ∷ row) [] (w ∷ widths) h = h
Fits-widen (cell ∷ row) (c ∷ other) (w ∷ widths) (h, k) =
    (ground (arith, h), Fits-widen row other widths k)

Fits-widen_all :
    (row : Row) (rows : List Row) (widths : List ℕ)
    → Fits row widths
    → Fits row (widen_all widths rows)
unfolding widen_all
Fits-widen_all row [] widths h = h
Fits-widen_all row (r ∷ rows) widths h =
    Fits-widen_all row rows (widen widths r) (Fits-widen row r widths h)

widen-Fits :
    (row : Row) (widths : List ℕ) → length row ≡ length widths → Fits row (widen widths row)
unfolding widen
widen-Fits [] [] h = tt
widen-Fits [] (w ∷ widths) h = absurd (ground (arith, h))
widen-Fits (cell ∷ row) [] h = absurd (ground (arith, h))
widen-Fits (cell ∷ row) (w ∷ widths) h = (ground arith, widen-Fits row widths (ground (arith, h)))

length-widen : (widths : List ℕ) (row : Row) → length (widen widths row) ≡ length widths
unfolding widen
length-widen [] row = refl
length-widen (w ∷ widths) [] = refl
length-widen (w ∷ widths) (cell ∷ row) = ap suc (length-widen widths row)

-- The row has as many cells as there are columns.
abbrev pub IsFull : ℕ → Row → Type 0
IsFull n row = length row ≡ n

rows-Fits :
    (rows : List Row) (widths : List ℕ)
    → All (IsFull (length widths)) rows
    → All (λ row. Fits row (widen_all widths rows)) rows
unfolding widen_all
rows-Fits [] widths h = tt
rows-Fits (row ∷ rows) widths (h, k) = (
  Fits-widen_all row rows (widen widths row) (widen-Fits row widths h),
  rows-Fits rows (widen widths row) (rw (length-widen widths row) k),
)

All-append {ℓ κ} :
    {A : Type ℓ} (P : A → Type κ) (xs ys : List A) → All P xs → All P ys → All P (xs ++ ys)
All-append P [] ys h k = k
All-append P (x ∷ xs) ys (h, hs) k = (h, All-append P xs ys hs k)

row_lines-aligned :
    (rows : List Row) (widths : List ℕ)
    → All (λ row. Fits row widths) rows
    → All (λ line. size line ≡ line_width widths) (row_lines widths rows)
row_lines-aligned [] widths h = tt
row_lines-aligned (row ∷ rows) widths (h, k) =
    (size-row_text row widths h, row_lines-aligned rows widths k)

header_lines-aligned :
    (headers : Row) (widths : List ℕ)
    → Fits headers widths
    → All (λ line. size line ≡ line_width widths) (header_lines headers widths)
header_lines-aligned [] widths h = tt
header_lines-aligned (c ∷ headers) widths h =
    (size-row_text (c ∷ headers) widths h, (size-rule_text (c ∷ headers) widths h, tt))

length-map : (headers : Row) → length (map size headers) ≡ length headers
length-map [] = refl
length-map (c ∷ headers) = ap suc (length-map headers)

-- If each row has as many cells as there are headers, then all the lines of the table, those of the
-- headers included, have the same width: that of the columns with three characters between them.
pub table_lines-aligned :
    (rows : List Row) (headers : Row)
    → All (IsFull (length headers)) rows
    → All (λ line. size line ≡ line_width (column_widths rows headers)) (table_lines rows headers)
unfolding table_lines
table_lines-aligned rows headers h =
    let widths = column_widths rows headers in
    All-append (λ line. size line ≡ line_width widths) (header_lines headers widths)
      (row_lines widths rows)
      (header_lines-aligned headers widths
        (Fits-widen_all headers rows (map size headers) (Fits-map headers)))
      (row_lines-aligned rows widths
        (rows-Fits rows (map size headers) (rw (length-map headers) h)))
